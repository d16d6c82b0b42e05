-- ===== src/Core/Messages/Pin.antt =====
-- crates/fidoh-core/src/pin.rs: the PIN/UV auth parameters and the clientPIN messages.
use Prim.Native.String.{String}
use fidoh.Base.{
  ℕ, ◌==◌, if◌then◌else◌, Bool, true, false, ◌||◌, List, [], ◌∷◌, Outcome, ok, err, ◌>>=◌, Option,
  none, some,
}
use fidoh.Core.Cbor.{pos, CborValue, int, bytes, text, map, Entries, end, entry}
use fidoh.Core.Cbor.Encode.{EncodeError, invalid_request, empty_permissions, encode}
use fidoh.Core.Messages.{
  Reads, bytes_member, uint_member, below, entries_of, read_entries, by_number, member,
}

pub data PinUvAuthProtocol : Type 0 where
  one two : PinUvAuthProtocol
  other : ℕ → PinUvAuthProtocol

-- `PinUvAuthProtocol::from_u32`.
unfoldable pub from_u32 : ℕ → PinUvAuthProtocol
from_u32 value = if value == 1 then one else if value == 2 then two else other value

-- `PinUvAuthProtocol::to_u32`.
unfoldable pub to_u32 : PinUvAuthProtocol → ℕ
to_u32 one = 1
to_u32 two = 2
to_u32 (other v) = v

-- The derived `==`.
unfoldable pub protocol_eq : PinUvAuthProtocol → PinUvAuthProtocol → Bool
protocol_eq one one = true
protocol_eq two two = true
protocol_eq (other v) (other w) = v == w
protocol_eq p q = false

-- `PinUvAuthProtocol::is_supported_by`.
unfoldable pub is_supported_by : PinUvAuthProtocol → List PinUvAuthProtocol → Bool
is_supported_by p [] = false
is_supported_by p (q ∷ supported) = protocol_eq q p || is_supported_by p supported

pub record PinUvAuthParam : Type 0 where
  pub bytes : List ℕ

-- `PinUvAuthParam::to_cbor`.
unfoldable pub param_to_cbor : PinUvAuthParam → CborValue
param_to_cbor param = bytes param.bytes

-- `PinUvAuthParam::from_cbor`.
unfoldable pub param_from_cbor : CborValue → Reads PinUvAuthParam
param_from_cbor value = bytes_member value "pinUvAuthParam" >>= λ b. ok (record { bytes = b })

-- `MAX_PIN_BYTES`.
abbrev pub max_pin_bytes : ℕ
max_pin_bytes = 63

pub data ClientPinSubCommand : Type 0 where
  get_pin_retries get_key_agreement get_pin_token : ClientPinSubCommand
  get_pin_uv_auth_token_using_pin_with_permissions : ClientPinSubCommand

-- `ClientPinSubCommand::to_u8`.
unfoldable pub sub_command_to_u8 : ClientPinSubCommand → ℕ
sub_command_to_u8 get_pin_retries = 0x01
sub_command_to_u8 get_key_agreement = 0x02
sub_command_to_u8 get_pin_token = 0x05
sub_command_to_u8 get_pin_uv_auth_token_using_pin_with_permissions = 0x09

-- `permissions::GA`.
abbrev pub permission_ga : ℕ
permission_ga = 0x02

pub record ClientPinRequest : Type 0 where
  pub protocol : PinUvAuthProtocol
  pub sub_command : ClientPinSubCommand
  pub key_agreement : Option CborValue
  pub pin_uv_auth_param : Option PinUvAuthParam
  pub pin_hash_enc : Option (List ℕ)
  pub permissions : Option ℕ
  pub rp_id : Option (List ℕ)

-- The entries that `ClientPinRequest::encode` pushes.
unfoldable pub client_pin_entries : ClientPinRequest → Entries
client_pin_entries r = entry (int (pos 0x01)) (int (pos (to_u32 r.protocol))) (
    entry (int (pos 0x02)) (int (pos (sub_command_to_u8 r.sub_command))) (
      member 0x03 (λ ka. ka) r.key_agreement
        (member 0x04 param_to_cbor r.pin_uv_auth_param (
          member 0x06 bytes r.pin_hash_enc
            (member 0x09 (λ p. int (pos p)) r.permissions (member 0x0a text r.rp_id end))))))

no_permissions : Option ℕ → Bool
no_permissions none = false
no_permissions (some permissions) = permissions == 0

-- `ClientPinRequest::encode`.
unfoldable pub encode_client_pin : ClientPinRequest → Outcome EncodeError (List ℕ)
unfolding no_permissions
encode_client_pin r =
    if no_permissions r.permissions
    then err (invalid_request empty_permissions)
    else encode (map (client_pin_entries r))

pub record ClientPinResponse : Type 0 where
  pub key_agreement : Option CborValue
  pub pin_uv_auth_token : Option (List ℕ)
  pub pin_retries : Option ℕ
  pub uv_retries : Option ℕ

-- `u8::try_from(uint_member(v, member)?)`.
unfoldable pub byte_member : CborValue → String → Reads ℕ
byte_member v name = uint_member v name >>= λ n. below 256 n name

-- An arm of the loop of `ClientPinResponse::from_cbor`.
unfoldable pub read_client_pin_member : ℕ → CborValue → ClientPinResponse → Reads ClientPinResponse
read_client_pin_member key v out =
    if key == 0x01
    then ok (record out { key_agreement = some v })
    else if key == 0x02
    then (bytes_member v "pinUvAuthToken" >>= λ b. ok (record out { pin_uv_auth_token = some b }))
    else if key == 0x03
    then (byte_member v "pinRetries" >>= λ n. ok (record out { pin_retries = some n }))
    else if key == 0x05
    then (byte_member v "uvRetries" >>= λ n. ok (record out { uv_retries = some n }))
    else ok out

-- `ClientPinResponse::from_cbor`.
unfoldable pub client_pin_from_cbor : CborValue → Reads ClientPinResponse
client_pin_from_cbor value = entries_of value "clientPinResponse" >>= λ entries.
    read_entries (by_number read_client_pin_member) entries (record {
      key_agreement = none;
      pin_uv_auth_token = none;
      pin_retries = none;
      uv_retries = none;
    })
