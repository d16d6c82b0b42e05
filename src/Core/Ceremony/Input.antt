-- ===== src/Core/Ceremony/Input.antt =====
-- crates/fidoh-core/src/ceremony.rs: the input of a ceremony and the request built from it.
use fidoh.Base.{
  ℕ, if◌then◌else◌, Bool, true, false, not, List, Outcome, ok, err, ◌>>=◌, map_err, Option, none,
  some,
}
use fidoh.Core.Messages.Pin.{PinUvAuthParam, PinUvAuthProtocol, is_supported_by}
use fidoh.Core.Messages.GetInfo.{GetInfoResponse}
use fidoh.Core.Messages.GetInfo.Options.{option, uv, client_pin}
use fidoh.Core.Messages.GetAssertion.{PublicKeyCredentialDescriptor}
use fidoh.Core.Messages.GetAssertion.Request.{
  GetAssertionRequest, GetAssertionOptions, new, unless_empty,
}
use fidoh.Core.Ceremony.{CeremonyError, pin_required, failure}

pub data UvPolicy : Type 0 where
  discouraged preferred : UvPolicy

-- `CeremonyInput`; of the provider and the entropy source, whether there is one.
pub record CeremonyInput : Type 0 where
  pub rp_id : List ℕ
  pub client_data_hash : List ℕ
  pub allow_credentials : Option (List PublicKeyCredentialDescriptor)
  pub user_verification : UvPolicy
  pub pin_uv_auth : Option (PinUvAuthParam × PinUvAuthProtocol)
  pub has_pin_provider : Bool
  pub pin_uv_auth_protocol : Option PinUvAuthProtocol
  pub has_entropy : Bool

unfoldable pub allowed :
    Option (List PublicKeyCredentialDescriptor) → Option (List PublicKeyCredentialDescriptor)
allowed none = none
allowed (some list) = unless_empty list

unfoldable pub advertised : Option (List PinUvAuthProtocol) → PinUvAuthProtocol → Bool
advertised none protocol = false
advertised (some list) protocol = is_supported_by protocol list

-- The caller's or the acquired pinUvAuth material, put into the request.
unfoldable pub with_pin_uv_auth :
    Option (PinUvAuthParam × PinUvAuthProtocol)
    → GetInfoResponse
    → GetAssertionRequest
    → Outcome CeremonyError GetAssertionRequest
unfolding advertised
with_pin_uv_auth none info request = ok request
with_pin_uv_auth (some (param, protocol)) info request =
    if not (advertised info.pin_uv_auth_protocols protocol)
    then err (
        failure "ceremony"
          "pinUvAuthProtocol is not among the authenticator's supported pinUvAuthProtocols")
    else ok
        (record request { pin_uv_auth_param = some param; pin_uv_auth_protocol = some protocol })

-- `CeremonyInput::build_request`.
unfoldable pub build_request :
    CeremonyInput → GetInfoResponse → Outcome CeremonyError GetAssertionRequest
unfolding allowed
build_request input info =
    map_err (λ e. failure "ceremony" "request construction")
      (new input.rp_id input.client_data_hash)
    >>= λ request.
        with_pin_uv_auth input.pin_uv_auth info
          (record request { allow_list = allowed input.allow_credentials })

-- `UvShape`, its `UvOption` as `ask_uv`.
pub data UvShape : Type 0 where
  omit ask_uv : UvShape

-- `CeremonyInput::uv_posture_without_token`.
unfoldable pub uv_posture_without_token : UvPolicy → GetInfoResponse → Outcome CeremonyError UvShape
uv_posture_without_token discouraged info = ok omit
uv_posture_without_token preferred info =
    if option info uv
    then ok ask_uv
    else if option info client_pin
    then err pin_required
    else ok omit

pub data UvEffective : Type 0 where
  not_requested by_pin_uv_auth by_uv_option by_pin_uv_auth_token : UvEffective

unfoldable pub asks_uv : Option GetAssertionOptions → Bool
asks_uv none = false
asks_uv (some o) = elim o.uv [ some true ↦ true | some false ↦ false | none ↦ false ]

-- `CeremonyInput::uv_effective`.
unfoldable pub uv_effective : GetAssertionRequest → UvEffective
unfolding asks_uv
uv_effective request = elim request.pin_uv_auth_param [
  | some param ↦ by_pin_uv_auth
  | none ↦ if asks_uv request.options then by_uv_option else not_requested
]

-- What the pipeline makes of the shape.
unfoldable pub shaped : UvShape → GetAssertionRequest → GetAssertionRequest
shaped omit request = request
shaped ask_uv request = record request { options = some (record { up = none; uv = some true }) }
