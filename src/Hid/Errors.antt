-- ===== src/Hid/Errors.antt =====
-- crates/fidoh-transport-hid/src/error.rs: the framing errors, the CTAPHID_ERROR codes and the
-- capability bits.
pub mod Codes
use fidoh.Base.{ℕ, ◌-◌, ◌==◌, if◌then◌else◌, Bool, true, false, not, bit_and}
use Prim.Native.String.{String}

-- `FramingError`. A `usize` or a `u32` is a number.
pub data FramingError : Type 0 where
  message_too_long : ℕ → FramingError
  length_beyond_maximum : ℕ → FramingError
  short_report : ℕ → FramingError
  -- expected, got
  length_mismatch : ℕ → ℕ → FramingError
  -- cid, got, expected
  invalid_seq : ℕ → ℕ → ℕ → FramingError
  nonce_mismatch : FramingError
  reserved_cid : ℕ → FramingError
  init_response_short : ℕ → FramingError
  -- got, expected
  unexpected_command : ℕ → ℕ → FramingError
  -- cmd, got
  unexpected_bcnt : ℕ → ℕ → FramingError
  ping_echo_mismatch : FramingError

pub data HidErrorCode : Type 0 where
  invalid_cmd invalid_par invalid_len invalid_seq_code msg_timeout channel_busy : HidErrorCode
  lock_required invalid_channel other : HidErrorCode
  unknown : ℕ → HidErrorCode

-- `HidErrorCode::from_u8`.
unfoldable pub from_u8 : ℕ → HidErrorCode
from_u8 b =
    if b == 0x01
    then invalid_cmd
    else if b == 0x02
    then invalid_par
    else if b == 0x03
    then invalid_len
    else if b == 0x04
    then invalid_seq_code
    else if b == 0x05
    then msg_timeout
    else if b == 0x06
    then channel_busy
    else if b == 0x0a
    then lock_required
    else if b == 0x0b
    then invalid_channel
    else if b == 0x7f
    then other
    else unknown b

-- `HidErrorCode::to_u8`.
pub to_u8 : HidErrorCode → ℕ
to_u8 invalid_cmd = 0x01
to_u8 invalid_par = 0x02
to_u8 invalid_len = 0x03
to_u8 invalid_seq_code = 0x04
to_u8 msg_timeout = 0x05
to_u8 channel_busy = 0x06
to_u8 lock_required = 0x0a
to_u8 invalid_channel = 0x0b
to_u8 other = 0x7f
to_u8 (unknown b) = b

-- `HidErrorCode::is_channel_busy`.
unfoldable pub is_channel_busy : HidErrorCode → Bool
is_channel_busy channel_busy = true
is_channel_busy _ = false

-- `Capability`, by its raw byte.
unfoldable pub wink : ℕ → Bool
wink caps = not (bit_and caps 0x01 == 0)

unfoldable pub cbor : ℕ → Bool
cbor caps = not (bit_and caps 0x04 == 0)

unfoldable pub nmsg : ℕ → Bool
nmsg caps = not (bit_and caps 0x08 == 0)

-- `CAPABILITY_KNOWN_MASK` is 0x0d, and its complement in a byte 0xf2.
unfoldable pub reserved_bits : ℕ → ℕ
reserved_bits caps = bit_and caps (0xff - 0x0d)

pub data HidError : Type 0 where
  framing : FramingError → HidError
  device : HidErrorCode → HidError
  unsupported_operation : ℕ → HidError
  reserved_capability_bits : ℕ → HidError
  no_cbor : HidError
  -- path, op, cause
  io : String → String → String → HidError
