-- ===== src/Core/Messages/GetInfo.antt =====
-- crates/fidoh-core/src/get_info.rs: the authenticatorGetInfo response.
pub mod Options
pub mod Decode
pub mod Validate
pub mod Wire
use fidoh.Base.{ℕ, Bool, List, Option, none, some}
use fidoh.Core.Cbor.{ℤ, CborValue}
use fidoh.Core.Messages.Pin.{PinUvAuthProtocol}

-- `PublicKeyCredentialParameter`, its algorithm an i64.
pub record PublicKeyCredentialParameter : Type 0 where
  pub alg : ℤ

-- `AuthenticatorOptions`, its map in the order of the keys.
pub record AuthenticatorOptions : Type 0 where
  pub entries : List (List ℕ × Bool)

pub record GetInfoResponse : Type 0 where
  pub versions : List (List ℕ)
  pub extensions : Option (List (List ℕ))
  pub aaguid : List ℕ
  pub options : Option AuthenticatorOptions
  pub max_msg_size : Option ℕ
  pub pin_uv_auth_protocols : Option (List PinUvAuthProtocol)
  pub max_credential_count_in_list : Option ℕ
  pub max_credential_id_length : Option ℕ
  pub transports : Option (List (List ℕ))
  pub algorithms : Option (List PublicKeyCredentialParameter)
  pub max_serialized_large_blob_array : Option ℕ
  pub force_pin_change : Option Bool
  pub min_pin_length : Option ℕ
  pub firmware_version : Option ℕ
  pub max_cred_blob_length : Option ℕ
  pub max_rpids_for_set_min_pin_length : Option ℕ
  pub preferred_platform_uv_attempts : Option ℕ
  pub uv_modality : Option ℕ
  pub certifications : Option CborValue
  pub remaining_discoverable_credentials : Option ℕ
  pub vendor_prototype_config_commands : Option (List ℕ)

-- The local variables of `from_cbor`, which are the arguments of `validate`.
pub record InfoMembers : Type 0 where
  pub versions : Option (List (List ℕ))
  pub extensions : Option (List (List ℕ))
  pub aaguid : Option (List ℕ)
  pub options : Option AuthenticatorOptions
  pub max_msg_size : Option ℕ
  pub pin_uv_auth_protocols : Option (List PinUvAuthProtocol)
  pub max_credential_count_in_list : Option ℕ
  pub max_credential_id_length : Option ℕ
  pub transports : Option (List (List ℕ))
  pub algorithms : Option (List PublicKeyCredentialParameter)
  pub max_serialized_large_blob_array : Option ℕ
  pub force_pin_change : Option Bool
  pub min_pin_length : Option ℕ
  pub firmware_version : Option ℕ
  pub max_cred_blob_length : Option ℕ
  pub max_rpids_for_set_min_pin_length : Option ℕ
  pub preferred_platform_uv_attempts : Option ℕ
  pub uv_modality : Option ℕ
  pub certifications : Option CborValue
  pub remaining_discoverable_credentials : Option ℕ
  pub vendor_prototype_config_commands : Option (List ℕ)

abbrev pub no_info_members : InfoMembers
no_info_members = record {
  versions = none;
  extensions = none;
  aaguid = none;
  options = none;
  max_msg_size = none;
  pin_uv_auth_protocols = none;
  max_credential_count_in_list = none;
  max_credential_id_length = none;
  transports = none;
  algorithms = none;
  max_serialized_large_blob_array = none;
  force_pin_change = none;
  min_pin_length = none;
  firmware_version = none;
  max_cred_blob_length = none;
  max_rpids_for_set_min_pin_length = none;
  preferred_platform_uv_attempts = none;
  uv_modality = none;
  certifications = none;
  remaining_discoverable_credentials = none;
  vendor_prototype_config_commands = none;
}
