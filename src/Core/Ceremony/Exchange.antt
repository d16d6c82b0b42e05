-- ===== src/Core/Ceremony/Exchange.antt =====
-- crates/fidoh-core/src/ceremony.rs: `exchange_pipeline`, phases 4 to 7.
use fidoh.Base.{
  ℕ, zero, suc, ◌-◌, ltb, if◌then◌else◌, Bool, true, false, not, ◌&&◌, ◌||◌, List, [], ◌∷◌, map,
  Outcome, ok, err, ◌>>=◌, Option, none, some, bytes_eq,
}
use fidoh.Core.Time.{Phase}
use fidoh.Core.Messages.Pin.{PinUvAuthParam, PinUvAuthProtocol}
use fidoh.Core.Messages.GetInfo.{GetInfoResponse}
use fidoh.Core.Messages.GetInfo.Options.{option, client_pin}
use fidoh.Core.Messages.GetAssertion.{PublicKeyCredentialDescriptor}
use fidoh.Core.Messages.GetAssertion.Request.{GetAssertionRequest}
use fidoh.Core.Messages.GetAssertion.Response.{GetAssertionResponse}
use fidoh.Core.Ceremony.{
  CeremonyError, DiscoveryDiagnostic, pin_required, credential_mismatch, failure,
}
use fidoh.Core.Ceremony.Run.{
  get_info, get_assertion, Outside, PinCrypto, Run, pure, fail, panic, settle, race, ◌>>=◌ as ◌>>>◌,
}
use fidoh.Core.Ceremony.Hops.{
  response_of, succeeds, decode_info, decode_assertion, keepalive_loop, drain_hop,
}
use fidoh.Core.Ceremony.Input.{
  UvPolicy, preferred, discouraged, CeremonyInput, build_request, uv_posture_without_token, shaped,
  UvEffective, by_pin_uv_auth_token, uv_effective,
}
use fidoh.Core.Ceremony.Acquire.{acquire_pin_uv_auth_token}

pub record GetAssertionOutcome : Type 0 where
  pub assertions : List GetAssertionResponse
  pub info : GetInfoResponse
  pub uv_effective : UvEffective
  pub discovery_diagnostics : List DiscoveryDiagnostic

abbrev pub PinUvAuth : Type 0
PinUvAuth = Option (PinUvAuthParam × PinUvAuthProtocol)

unfoldable pub wants_uv : UvPolicy → Bool
wants_uv preferred = true
wants_uv discouraged = false

unfoldable pub protocols_advertised : Option (List PinUvAuthProtocol) → Bool
protocols_advertised none = false
protocols_advertised (some []) = false
protocols_advertised (some (p ∷ ps)) = true

-- The condition of phase 4a.
unfoldable pub wants_token : CeremonyInput → GetInfoResponse → Bool
unfolding wants_uv protocols_advertised
wants_token input info =
    wants_uv input.user_verification
    && (option info client_pin && protocols_advertised info.pin_uv_auth_protocols)

-- The request of phase 5, with the pinUvAuth material that there is by then.
unfoldable pub wire_request :
    CeremonyInput → GetInfoResponse → PinUvAuth → Outcome CeremonyError GetAssertionRequest
wire_request input info auth =
    build_request (record input { pin_uv_auth = auth }) info >>= λ request. elim auth [
      | some material ↦ ok request
      | none ↦ uv_posture_without_token input.user_verification info >>= λ shape.
          ok (shaped shape request)
    ]

-- `allow.iter().any(|d| d.id == id)`.
unfoldable pub allows : List PublicKeyCredentialDescriptor → List ℕ → Bool
allows [] id = false
allows (d ∷ ds) id = bytes_eq d.id id || allows ds id

-- The library-safety rule.
unfoldable pub only_allowed :
    Option (List PublicKeyCredentialDescriptor) → List ℕ → Outcome CeremonyError (Unit {0})
only_allowed none id = ok tt
only_allowed (some allow) id =
    if not (allows allow id)
    then err (credential_mismatch id (map (λ (d : PublicKeyCredentialDescriptor). d.id) allow))
    else ok tt

unfoldable pub effective : Bool → GetAssertionRequest → UvEffective
effective true request = by_pin_uv_auth_token
effective false request = uv_effective request

module _ {W K S : Type 0} (env : Outside W) (crypto : PinCrypto W K S) where
  -- Phase 4a: the pinUvAuth material of the request, and whether it was acquired. Without entropy
  -- the `expect` panics.
  unfoldable pub token_acquired : CeremonyInput → GetInfoResponse → Run W (PinUvAuth × Bool)
  token_acquired input info = elim input.pin_uv_auth [
    | some material ↦ pure (some material, false)
    | none ↦
        if not (wants_token input info)
        then pure (none, false)
        else if not input.has_pin_provider
        then fail pin_required
        else if not input.has_entropy
        then panic "entropy injected by the caller for PIN acquisition"
        else (acquire_pin_uv_auth_token env crypto info input.rp_id input.client_data_hash
              input.pin_uv_auth_protocol
            >>> λ acquired. pure (some acquired, true))
  ]

  -- Phase 6: the exchange, and the check of its credential. As many turns are followed as keepalives
  -- can spend budget, and the one that finds none left.
  unfoldable pub exchanged : GetAssertionRequest → Run W GetAssertionResponse
  exchanged request =
      (λ w. keepalive_loop env (suc w.deadline.remaining) false (get_assertion request) w)
      >>> λ event. settle (
          response_of event >>= λ r. succeeds r.0 >>= λ u. decode_assertion r.1 >>= λ first.
          only_allowed request.allow_list first.credential.id >>= λ u'. ok first)

  -- The hops of phase 7.
  unfoldable pub drained : ℕ → Run W (List GetAssertionResponse)
  drained zero = pure []
  drained (suc extra) =
      let rest = drained extra in drain_hop env >>> λ next. rest >>> λ others. pure (next ∷ others)

  -- Phase 7.
  unfoldable pub all_assertions : Bool → GetAssertionResponse → Run W (List GetAssertionResponse)
  all_assertions has_drain first =
      if not (ltb 1 first.number_of_credentials)
      then pure (first ∷ [])
      else if not has_drain
      then fail (failure "ceremony" "multi-assertion drain requires a `Drain` hook")
      else (drained (first.number_of_credentials - 1) >>> λ others. pure (first ∷ others))

  -- `exchange_pipeline`.
  unfoldable pub exchange_pipeline : CeremonyInput → Bool → Run W GetAssertionOutcome
  unfolding effective
  exchange_pipeline input has_drain = race Phase.get_info (env.send get_info) >>> λ event.
      settle (decode_info event) >>> λ info. token_acquired input info >>> λ auth.
      settle (wire_request input info auth.0) >>> λ request. exchanged request >>> λ first.
      all_assertions has_drain first >>> λ assertions. pure (record {
        assertions = assertions;
        info = info;
        uv_effective = effective auth.1 request;
        discovery_diagnostics = [];
      })
