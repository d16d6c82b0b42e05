-- ===== src/Core/Messages/GetInfo/Options.antt =====
-- crates/fidoh-core/src/get_info.rs: the option identifiers and the map of options.
use Prim.Native.Nat.{Ordering}
use Prim.Native.String.{String}
use fidoh.Base.{
  ℕ, if◌then◌else◌, Bool, true, false, List, [], ◌∷◌, ok, err, ◌>>=◌, Option, none, some, bytes_eq,
}
use fidoh.Core.Cbor.{CborValue, text, bool}
use fidoh.Core.Cbor.Encode.{slice_cmp}
use fidoh.Core.Cbor.Decode.{type_mismatch}
use fidoh.Core.Messages.{Reads, ascii, entries_of, read_entries}
use fidoh.Core.Messages.GetInfo.{AuthenticatorOptions, GetInfoResponse}

pub data OptionId : Type 0 where
  plat rk client_pin up : OptionId
  uv pin_uv_auth_token no_mc_ga_permissions_with_client_pin large_blobs : OptionId
  ep bio_enroll user_verification_mgmt_preview uv_bio_enroll : OptionId
  authnr_cfg uv_acfg cred_mgmt credential_mgmt_preview : OptionId
  set_min_pin_length make_cred_uv_not_rqd always_uv : OptionId

-- `OptionId::as_str`.
unfoldable pub as_str : OptionId → String
as_str plat = "plat"
as_str rk = "rk"
as_str client_pin = "clientPin"
as_str up = "up"
as_str uv = "uv"
as_str pin_uv_auth_token = "pinUvAuthToken"
as_str no_mc_ga_permissions_with_client_pin = "noMcGaPermissionsWithClientPin"
as_str large_blobs = "largeBlobs"
as_str ep = "ep"
as_str bio_enroll = "bioEnroll"
as_str user_verification_mgmt_preview = "userVerificationMgmtPreview"
as_str uv_bio_enroll = "uvBioEnroll"
as_str authnr_cfg = "authnrCfg"
as_str uv_acfg = "uvAcfg"
as_str cred_mgmt = "credMgmt"
as_str credential_mgmt_preview = "credentialMgmtPreview"
as_str set_min_pin_length = "setMinPINLength"
as_str make_cred_uv_not_rqd = "makeCredUvNotRqd"
as_str always_uv = "alwaysUv"

-- `OptionId::default_value`.
unfoldable pub default_value : OptionId → Bool
default_value up = true
default_value id = false

-- `BTreeMap::insert`, the order that of the keys' bytes.
unfoldable pub insert_option : List ℕ → Bool → List (List ℕ × Bool) → List (List ℕ × Bool)
insert_option id enabled [] = (id, enabled) ∷ []
insert_option id enabled (e ∷ entries) =
    let rest = insert_option id enabled entries in
    elim (slice_cmp id e.0) [
      | Ordering.lt ↦ (id, enabled) ∷ e ∷ entries
      | Ordering.eq ↦ (id, enabled) ∷ entries
      | Ordering.gt ↦ e ∷ rest
    ]

-- `BTreeMap::get`.
unfoldable pub get_option : List ℕ → List (List ℕ × Bool) → Option Bool
get_option id [] = none
get_option id (e ∷ entries) = if bytes_eq id e.0 then some e.1 else get_option id entries

-- The body of the loop of `AuthenticatorOptions::from_cbor`.
unfoldable pub read_option :
    CborValue → CborValue → List (List ℕ × Bool) → Reads (List (List ℕ × Bool))
read_option (text id) (bool enabled) entries = ok (insert_option id enabled entries)
read_option (text id) v entries = err (type_mismatch "options" "boolean values")
read_option k v entries = err (type_mismatch "options" "string keys")

-- `AuthenticatorOptions::from_cbor`.
unfoldable pub options_from_cbor : CborValue → Reads AuthenticatorOptions
options_from_cbor value = entries_of value "options" >>= λ entries.
    read_entries read_option entries [] >>= λ read. ok (record { entries = read })

unfoldable pub unwrap_or : Option Bool → Bool → Bool
unwrap_or none d = d
unwrap_or (some b) d = b

-- `AuthenticatorOptions::get`.
unfoldable pub get : AuthenticatorOptions → OptionId → Bool
unfolding unwrap_or
get options id = unwrap_or (get_option (ascii (as_str id)) options.entries) (default_value id)

unfoldable pub get_from : Option AuthenticatorOptions → OptionId → Bool
get_from none id = default_value id
get_from (some options) id = get options id

-- `GetInfoResponse::option`.
unfoldable pub option : GetInfoResponse → OptionId → Bool
unfolding get_from
option info id = get_from info.options id
