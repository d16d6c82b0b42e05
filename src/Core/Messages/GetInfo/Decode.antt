-- ===== src/Core/Messages/GetInfo/Decode.antt =====
-- crates/fidoh-core/src/get_info.rs: the loop of `GetInfoResponse::from_cbor` and its readers.
use fidoh.Base.{
  ℕ, ◌==◌, ◌^◌, ltb, if◌then◌else◌, Bool, true, false, not, List, [], ◌∷◌, ok, err, ◌>>=◌, Option,
  none, some, bytes_eq,
}
use fidoh.Core.Cbor.{ℤ, pos, negsuc, CborValue, text, array, map}
use fidoh.Core.Cbor.Decode.{type_mismatch, missing_member, invalid_value}
use fidoh.Core.Messages.{
  Reads, ascii, int_member, bytes_member, bool_member, uint_member, text_array, uint_array, below,
  read_items, required, read_entries, by_text,
}
use fidoh.Core.Messages.Pin.{PinUvAuthProtocol, from_u32}
use fidoh.Core.Messages.GetInfo.{PublicKeyCredentialParameter, InfoMembers}
use fidoh.Core.Messages.GetInfo.Options.{options_from_cbor}

-- `i64::try_from(..)`.
in_i64 : ℤ → Bool
in_i64 (pos n) = ltb n (2 ^ 63)
in_i64 (negsuc n) = ltb n (2 ^ 63)

-- `alg` and `type_ok` of `algorithms_member`.
pub record ParameterMembers : Type 0 where
  pub alg : Option ℤ
  pub type_ok : Bool

public_key_type : CborValue → ParameterMembers → Reads ParameterMembers
public_key_type (text t) m =
    if bytes_eq t (ascii "public-key")
    then ok (record m { type_ok = true })
    else err (type_mismatch "algorithms" "\"type\": \"public-key\"")
public_key_type v m = err (type_mismatch "algorithms" "\"type\": \"public-key\"")

unfoldable pub read_parameter_member :
    List ℕ → CborValue → ParameterMembers → Reads ParameterMembers
unfolding public_key_type in_i64
read_parameter_member key v m =
    if bytes_eq key (ascii "type")
    then public_key_type v m
    else if bytes_eq key (ascii "alg")
    then (int_member v "algorithms" >>= λ n.
        if in_i64 n then ok (record m { alg = some n }) else err (invalid_value "algorithms"))
    else ok m

-- The checks on one parameter behind its loop.
unfoldable pub checked_parameter : ParameterMembers → Reads PublicKeyCredentialParameter
checked_parameter m = required m.alg "algorithms[alg]" >>= λ alg.
    if not m.type_ok then err (missing_member "algorithms[type]") else ok (record { alg = alg })

unfoldable pub parameter_from_cbor : CborValue → Reads PublicKeyCredentialParameter
parameter_from_cbor (map entries) =
    read_entries (by_text read_parameter_member) entries (record { alg = none; type_ok = false })
    >>= checked_parameter
parameter_from_cbor v = err (type_mismatch "algorithms" "array of maps")

-- `algorithms_member`.
unfoldable pub algorithms_member : CborValue → Reads (List PublicKeyCredentialParameter)
algorithms_member (array items) = read_items parameter_from_cbor items
algorithms_member v = err (type_mismatch "algorithms" "array")

-- The loop of the arm for `pinUvAuthProtocols`.
unfoldable pub protocols_of : List ℕ → Reads (List PinUvAuthProtocol)
protocols_of [] = ok []
protocols_of (n ∷ raw) = below (2 ^ 32) n "pinUvAuthProtocols" >>= λ v.
    protocols_of raw >>= λ list. ok (from_u32 v ∷ list)

only_map : CborValue → Reads CborValue
only_map (map entries) = ok (map entries)
only_map v = err (type_mismatch "certifications" "map")

-- The arms of the loop.
unfoldable pub read_info_member : ℕ → CborValue → InfoMembers → Reads InfoMembers
unfolding only_map
read_info_member key v m =
    if key == 0x01
    then (text_array v "versions" >>= λ a. ok (record m { versions = some a }))
    else if key == 0x02
    then (text_array v "extensions" >>= λ a. ok (record m { extensions = some a }))
    else if key == 0x03
    then (bytes_member v "aaguid" >>= λ a. ok (record m { aaguid = some a }))
    else if key == 0x04
    then (options_from_cbor v >>= λ a. ok (record m { options = some a }))
    else if key == 0x05
    then (uint_member v "maxMsgSize" >>= λ a. ok (record m { max_msg_size = some a }))
    else if key == 0x06
    then (uint_array v "pinUvAuthProtocols" >>= protocols_of >>= λ a.
        ok (record m { pin_uv_auth_protocols = some a }))
    else if key == 0x07
    then (uint_member v "maxCredentialCountInList" >>= λ a.
        ok (record m { max_credential_count_in_list = some a }))
    else if key == 0x08
    then (uint_member v "maxCredentialIdLength" >>= λ a.
        ok (record m { max_credential_id_length = some a }))
    else if key == 0x09
    then (text_array v "transports" >>= λ a. ok (record m { transports = some a }))
    else if key == 0x0a
    then (algorithms_member v >>= λ a. ok (record m { algorithms = some a }))
    else if key == 0x0b
    then (uint_member v "maxSerializedLargeBlobArray" >>= λ a.
        ok (record m { max_serialized_large_blob_array = some a }))
    else if key == 0x0c
    then (bool_member v "forcePINChange" >>= λ a. ok (record m { force_pin_change = some a }))
    else if key == 0x0d
    then (uint_member v "minPINLength" >>= λ a. ok (record m { min_pin_length = some a }))
    else if key == 0x0e
    then (uint_member v "firmwareVersion" >>= λ a. ok (record m { firmware_version = some a }))
    else if key == 0x0f
    then (uint_member v "maxCredBlobLength" >>= λ a.
        ok (record m { max_cred_blob_length = some a }))
    else if key == 0x10
    then (uint_member v "maxRPIDsForSetMinPINLength" >>= λ a.
        ok (record m { max_rpids_for_set_min_pin_length = some a }))
    else if key == 0x11
    then (uint_member v "preferredPlatformUvAttempts" >>= λ a.
        ok (record m { preferred_platform_uv_attempts = some a }))
    else if key == 0x12
    then (uint_member v "uvModality" >>= λ a. ok (record m { uv_modality = some a }))
    else if key == 0x13
    then (only_map v >>= λ a. ok (record m { certifications = some a }))
    else if key == 0x14
    then (uint_member v "remainingDiscoverableCredentials" >>= λ a.
        ok (record m { remaining_discoverable_credentials = some a }))
    else if key == 0x15
    then (uint_array v "vendorPrototypeConfigCommands" >>= λ a.
        ok (record m { vendor_prototype_config_commands = some a }))
    else ok m
