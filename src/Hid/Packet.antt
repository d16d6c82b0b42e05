-- ===== src/Hid/Packet.antt =====
-- crates/fidoh-transport-hid/src/packet.rs with the constants of src/consts.rs: a message as
-- 64-byte reports. A report is a list of bytes; an index past a checked length is never read.
pub mod Layout
pub mod Count
use fidoh.Base.{
  ℕ, zero, suc, ◌+◌, ◌-◌, ◌*◌, ◌/◌, ◌%◌, ◌≤◌, min, List, [], ◌∷◌, ◌++◌, length, take, drop,
  replicate, get_or, copy_at, to_be_bytes, from_be_bytes, bit_or, bit_and, ltb, leb, ◌==◌,
  if◌then◌else◌, Bool, not, Outcome, ok, err, ◌>>=◌,
}
use fidoh.Hid.Errors.{FramingError, message_too_long, short_report}

abbrev pub report_size : ℕ
report_size = 64

abbrev pub init_header : ℕ
init_header = 7

abbrev pub init_payload : ℕ
init_payload = report_size - init_header

abbrev pub cont_header : ℕ
cont_header = 5

abbrev pub cont_payload : ℕ
cont_payload = report_size - cont_header

-- `MAX_MESSAGE_SIZE`, 7609.
abbrev pub max_message_size : ℕ
max_message_size = init_payload + 128 * cont_payload

abbrev pub broadcast_cid : ℕ
broadcast_cid = 0xffff_ffff

abbrev pub cmd_ping : ℕ
cmd_ping = 0x01

abbrev pub cmd_init : ℕ
cmd_init = 0x06

abbrev pub cmd_wink : ℕ
cmd_wink = 0x08

abbrev pub cmd_cbor : ℕ
cmd_cbor = 0x10

abbrev pub cmd_cancel : ℕ
cmd_cancel = 0x11

abbrev pub cmd_keepalive : ℕ
cmd_keepalive = 0x3b

abbrev pub cmd_error : ℕ
cmd_error = 0x3f

abbrev pub cmd_type_bit : ℕ
cmd_type_bit = 0x80

abbrev blank : List ℕ
blank = replicate report_size 0

-- The initialization packet that `encode_message` builds.
unfoldable pub init_packet : ℕ → ℕ → List ℕ → List ℕ
init_packet cid cmd payload =
    copy_at init_header (take (min (length payload) init_payload) payload) (
      copy_at 5 (to_be_bytes 2 (length payload))
        (copy_at 4 (bit_or cmd cmd_type_bit ∷ []) (copy_at 0 (to_be_bytes 4 cid) blank)))

-- One continuation packet over the front of `rest`.
unfoldable pub cont_packet : ℕ → ℕ → List ℕ → List ℕ
cont_packet cid seq rest =
    copy_at cont_header (take (min (length rest) cont_payload) rest)
      (copy_at 4 (seq ∷ []) (copy_at 0 (to_be_bytes 4 cid) blank))

-- The loop `while !rest.is_empty()`. Each round takes a byte at least, so `length rest` rounds
-- are enough fuel. `seq` is a u8.
unfoldable pub cont_packets : ℕ → ℕ → ℕ → List ℕ → List (List ℕ)
cont_packets fuel cid seq [] = []
cont_packets zero cid seq (b ∷ bs) = []
cont_packets (suc fuel) cid seq (b ∷ bs) =
    cont_packet cid seq (b ∷ bs)
    ∷ cont_packets fuel cid ((seq + 1) % 256) (drop (min (length (b ∷ bs)) cont_payload) (b ∷ bs))

-- `encode_message`. The second test is `u16::try_from`.
unfoldable pub encode_message : ℕ → ℕ → List ℕ → Outcome FramingError (List (List ℕ))
encode_message cid cmd payload =
    let rest = drop (min (length payload) init_payload) payload in
    if ltb max_message_size (length payload)
    then err (message_too_long (length payload))
    else if ltb 0xffff (length payload)
    then err (message_too_long (length payload))
    else ok (init_packet cid cmd payload ∷ cont_packets (length rest) cid 0 rest)

-- `usize::div_ceil`.
abbrev div_ceil : ℕ → ℕ → ℕ
div_ceil a b = (a + b - 1) / b

-- `packet_count`.
unfoldable pub packet_count : ℕ → ℕ
packet_count len =
    if leb len init_payload then 1 else 1 + div_ceil (len - init_payload) cont_payload

pub data InboundKind : Type 0 where
  init continuation : InboundKind

-- `classify`.
unfoldable pub classify : List ℕ → Outcome FramingError InboundKind
classify report =
    if ltb (length report) report_size
    then err (short_report (length report))
    else if not (bit_and (get_or report 4 0) cmd_type_bit == 0)
    then ok init
    else ok continuation

pub record InitHeader : Type 0 where
  pub cid : ℕ
  pub cmd : ℕ
  pub bcnt : ℕ

abbrev pub cid_of : List ℕ → ℕ
cid_of report =
    from_be_bytes
      (get_or report 0 0 ∷ get_or report 1 0 ∷ get_or report 2 0 ∷ get_or report 3 0 ∷ [])

-- `parse_init_header`; the complement of the type bit in a byte is 0x7f.
unfoldable pub parse_init_header : List ℕ → Outcome FramingError InitHeader
parse_init_header report =
    if ltb (length report) report_size
    then err (short_report (length report))
    else ok (record {
      cid = cid_of report;
      cmd = bit_and (get_or report 4 0) (0xff - cmd_type_bit);
      bcnt = from_be_bytes (get_or report 5 0 ∷ get_or report 6 0 ∷ []);
    })

-- `parse_cont_header`.
unfoldable pub parse_cont_header : List ℕ → Outcome FramingError (ℕ × ℕ)
parse_cont_header report =
    if ltb (length report) report_size
    then err (short_report (length report))
    else ok (cid_of report, get_or report 4 0)

-- `payload_of`.
unfoldable pub payload_of : List ℕ → InitHeader → Outcome FramingError (List ℕ)
payload_of report hdr =
    if ltb (length report) report_size
    then err (short_report (length report))
    else ok (take hdr.bcnt (drop init_header report))
