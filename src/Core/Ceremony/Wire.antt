-- ===== src/Core/Ceremony/Wire.antt =====
-- What request ceremony.rs builds: the rules of get_assertion.rs hold of it.
use fidoh.Base.{
  ℕ, subst, ◌∙◌, not, ◌≡◌, refl, ◌⊎◌, inl, inr, Option, none, some, ok, ok_inj, List, [], ◌∷◌,
}
use fidoh.Core.Cbor.{map}
use fidoh.Core.Cbor.Encode.{encode}
use fidoh.Core.Messages.Pin.{PinUvAuthParam, PinUvAuthProtocol}
use fidoh.Core.Messages.GetAssertion.{PublicKeyCredentialDescriptor}
use fidoh.Core.Messages.GetInfo.{GetInfoResponse}
use fidoh.Core.Messages.GetAssertion.Request.{
  GetAssertionRequest, encode_request, request_entries, validate, empty_list, uv_set, new,
  unless_empty,
}
use fidoh.Core.Ceremony.Input.{
  CeremonyInput, build_request, with_pin_uv_auth, allowed, advertised, UvShape,
  uv_posture_without_token, shaped, omit, ask_uv,
}
use fidoh.Core.Ceremony.Exchange.{PinUvAuth, wire_request}
use fidoh.Core.Cbor.Minimal.{bind_ok, guard_ok}

-- What the rules ask of a request.
abbrev pub Sendable : GetAssertionRequest → Type 0
Sendable r =
    ((r.options ≡ none) ⊎ (r.pin_uv_auth_param ≡ none))
    × (r.extensions ≡ none)
    × (encode_request r ≡ encode (map (request_entries r)))

module _ (rp_id hash : List ℕ) where
  -- The request before the pinUvAuth material or the shape.
  abbrev bare : Option (List PublicKeyCredentialDescriptor) → GetAssertionRequest
  bare allow = record {
    rp_id = rp_id;
    client_data_hash = hash;
    allow_list = allowed allow;
    extensions = none;
    options = none;
    pin_uv_auth_param = none;
    pin_uv_auth_protocol = none;
  }

  shaped-Sendable :
      (shape : UvShape) (allow : Option (List PublicKeyCredentialDescriptor))
      → Sendable (shaped shape (bare allow))
  unfolding encode_request validate empty_list uv_set allowed unless_empty shaped
  shaped-Sendable omit none = (inl refl, refl, refl)
  shaped-Sendable omit (some []) = (inl refl, refl, refl)
  shaped-Sendable omit (some (d ∷ ds)) = (inl refl, refl, refl)
  shaped-Sendable ask_uv none = (inr refl, refl, refl)
  shaped-Sendable ask_uv (some []) = (inr refl, refl, refl)
  shaped-Sendable ask_uv (some (d ∷ ds)) = (inr refl, refl, refl)

  authorized-Sendable :
      (param : PinUvAuthParam) (protocol : PinUvAuthProtocol)
      (allow : Option (List PublicKeyCredentialDescriptor))
      → Sendable (record (bare allow) {
        pin_uv_auth_param = some param;
        pin_uv_auth_protocol = some protocol;
      })
  unfolding encode_request validate empty_list uv_set allowed unless_empty
  authorized-Sendable param protocol none = (inl refl, refl, refl)
  authorized-Sendable param protocol (some []) = (inl refl, refl, refl)
  authorized-Sendable param protocol (some (d ∷ ds)) = (inl refl, refl, refl)

-- The request that a ceremony sends, with or without pinUvAuth material, never asks for UV next to a
-- pinUvAuthParam, carries no extensions, and has no empty allow list, so that its encoding meets
-- neither of the request's errors.
pub wire_request-encodes :
    (input : CeremonyInput) (info : GetInfoResponse) (auth : PinUvAuth) (r : GetAssertionRequest)
    → wire_request input info auth ≡ ok r
    → Sendable r
unfolding wire_request build_request new with_pin_uv_auth
wire_request-encodes input info none r h =
    let posture = bind_ok (uv_posture_without_token input.user_verification info) _ h in
    subst Sendable (ok_inj posture.2)
      (shaped-Sendable input.rp_id input.client_data_hash posture.0 input.allow_credentials)
wire_request-encodes input info (some (param, protocol)) r h =
    let built =
      bind_ok
        (with_pin_uv_auth (some (param, protocol)) info
          (bare input.rp_id input.client_data_hash input.allow_credentials))
        _ h in
    let passed = guard_ok (not (advertised info.pin_uv_auth_protocols protocol)) _ _ built.1 in
    subst Sendable (ok_inj passed.1 ∙ ok_inj built.2) (
      authorized-Sendable input.rp_id input.client_data_hash param protocol input.allow_credentials)
