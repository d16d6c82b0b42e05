-- ===== src/Core/Ceremony/Safety.antt =====
-- What a finished exchange of ceremony.rs returns: how many assertions, and for which credential.
use mathlib.Core.List.{Memᴰ}
use fidoh.Base.{
  ℕ, zero, suc, ◌-◌, ltb, not, ◌≡◌, refl, sym, ap, ◌∙◌, subst, arith, Bool, true, false, List, [],
  ◌∷◌, map, length, Outcome, ok, err, from_ok, ok_inj, Option, none, some, Bool-cases, inl, inr,
  bytes_eq, bytes_eq_sound, if◌then◌else◌,
}
use fidoh.Core.Cbor.Minimal.{guard_ok}
use fidoh.Core.Messages.GetInfo.{GetInfoResponse}
use fidoh.Core.Messages.GetAssertion.{PublicKeyCredentialDescriptor}
use fidoh.Core.Messages.GetAssertion.Request.{GetAssertionRequest, new, unless_empty}
use fidoh.Core.Messages.GetAssertion.Response.{GetAssertionResponse}
use fidoh.Core.Ceremony.{CeremonyError, failure}
use fidoh.Core.Ceremony.Run.{
  World, Stop, Outside, PinCrypto, Run, and_then, settle, pure, fail, ◌>>=◌ as ◌>>>◌,
}
use fidoh.Core.Ceremony.Hops.{response_of, succeeds, decode_assertion}
use fidoh.Core.Ceremony.Input.{
  CeremonyInput, omit, ask_uv, shaped, allowed, build_request, with_pin_uv_auth, advertised,
  uv_posture_without_token,
}
use fidoh.Core.Ceremony.Exchange.{
  PinUvAuth, GetAssertionOutcome, wire_request, allows, only_allowed, drained, all_assertions,
  exchanged, exchange_pipeline,
}

-- A run that went well, taken apart.
pub from_run :
    {W A B P : Type 0} (p : Outcome Stop A × World W) (f : A → Run W B) {b : B} {w' : World W}
    → and_then p f ≡ (ok b, w')
    → ((a : A) (w : World W) → p ≡ (ok a, w) → f a w ≡ (ok b, w') → P)
    → P
unfolding and_then
from_run (ok a, w) f h k = k a w refl h
from_run (err e, w) f h k = absurd cc

pub run_ok_inj :
    {W A : Type 0} {a b : A} {w w' : World W}
    → ◌≡◌ {A = Outcome Stop A × World W} (ok a, w) (ok b, w')
    → a ≡ b
run_ok_inj h = cc

pub settle_run :
    {W A : Type 0} (o : Outcome CeremonyError A) (w : World W) {a : A} {w' : World W}
    → settle o w ≡ (ok a, w')
    → o ≡ ok a
unfolding settle
settle_run (ok a) w h = cc
settle_run (err e) w h = absurd cc

-- The credential is one of the caller's, when the caller names any.
pub IsAllowed : Option (List PublicKeyCredentialDescriptor) → List ℕ → Type 0
IsAllowed none id = Unit {0}
IsAllowed (some []) id = Unit {0}
IsAllowed (some (d ∷ ds)) id = Memᴰ id (map (λ (c : PublicKeyCredentialDescriptor). c.id) (d ∷ ds))

allows-Memᴰ :
    (ds : List PublicKeyCredentialDescriptor) (id : List ℕ)
    → allows ds id ≡ true
    → Memᴰ id (map (λ (c : PublicKeyCredentialDescriptor). c.id) ds)
unfolding allows
allows-Memᴰ [] id h = absurd cc
allows-Memᴰ (d ∷ ds) id h = elim (Bool-cases (bytes_eq d.id id)) [
  | inl e ↦ Memᴰ.head (sym (bytes_eq_sound d.id id e))
  | inr e ↦ Memᴰ.tail (allows-Memᴰ ds id (ground arith))
]

from_negation : (b : Bool) → not b ≡ false → b ≡ true
from_negation true h = refl
from_negation false h = absurd cc

only_allowed-IsAllowed :
    (allow : Option (List PublicKeyCredentialDescriptor)) (id : List ℕ)
    → only_allowed (allowed allow) id ≡ ok tt
    → IsAllowed allow id
unfolding only_allowed allowed unless_empty IsAllowed
only_allowed-IsAllowed none id h = tt
only_allowed-IsAllowed (some []) id h = tt
only_allowed-IsAllowed (some (d ∷ ds)) id h =
    allows-Memᴰ (d ∷ ds) id (from_negation _ (guard_ok (not (allows (d ∷ ds) id)) _ _ h).0)

-- The request before its material or its shape.
abbrev unshaped : CeremonyInput → GetAssertionRequest
unshaped input = record {
  rp_id = input.rp_id;
  client_data_hash = input.client_data_hash;
  allow_list = allowed input.allow_credentials;
  extensions = none;
  options = none;
  pin_uv_auth_param = none;
  pin_uv_auth_protocol = none;
}

wire_request-allow_list :
    (input : CeremonyInput) (info : GetInfoResponse) (auth : PinUvAuth) (r : GetAssertionRequest)
    → wire_request input info auth ≡ ok r
    → allowed input.allow_credentials ≡ r.allow_list
unfolding wire_request build_request new with_pin_uv_auth shaped
wire_request-allow_list input info none r h =
    from_ok (uv_posture_without_token input.user_verification info) _ h (λ shape e r'.
      elim shape
          as (λ s. shaped s (unshaped input) ≡ r → allowed input.allow_credentials ≡ r.allow_list) [
            | omit ↦ λ x. ap (λ (q : GetAssertionRequest). q.allow_list) x
            | ask_uv ↦ λ x. ap (λ (q : GetAssertionRequest). q.allow_list) x
          ]
        (ok_inj r'))
wire_request-allow_list input info (some (param, protocol)) r h =
    from_ok (with_pin_uv_auth (some (param, protocol)) info (unshaped input)) _ h (λ built e r'.
      ap (λ (q : GetAssertionRequest). q.allow_list)
        (ok_inj (guard_ok (not (advertised info.pin_uv_auth_protocols protocol)) _ _ e).1
          ∙ ok_inj r'))

module _ {W K S : Type 0} (env : Outside W) (crypto : PinCrypto W K S) where
  exchanged-only_allowed :
      (request : GetAssertionRequest) (w w' : World W) (first : GetAssertionResponse)
      → exchanged env crypto request w ≡ (ok first, w')
      → only_allowed request.allow_list first.credential.id ≡ ok tt
  unfolding exchanged
  exchanged-only_allowed request w w' first h = from_run _ _ h (λ event w1 came read.
      from_ok (response_of event) _ (settle_run _ w1 read) (λ answer e1 r1.
        from_ok (succeeds answer.0) _ r1 (λ u e2 r2.
          from_ok (decode_assertion answer.1) _ r2 (λ decoded e3 r3.
            from_ok (only_allowed request.allow_list decoded.credential.id) _ r3 (λ u' e4 r4.
              subst
                (λ (x : GetAssertionResponse).
                  only_allowed request.allow_list x.credential.id ≡ ok tt)
                (ok_inj r4) e4)))))

  drained-length :
      (extra : ℕ) (w w' : World W) (rest : List GetAssertionResponse)
      → drained env crypto extra w ≡ (ok rest, w')
      → length rest ≡ extra
  unfolding drained
  drained-length zero w w' rest h = ap length (sym (run_ok_inj h))
  drained-length (suc extra) w w' rest h = from_run _ _ h (λ next w1 came more.
      from_run _ _ more (λ others w2 came' last.
        ap length (sym (run_ok_inj last)) ∙ ap suc (drained-length extra w1 w2 others came')))

  -- The assertions of phase 7.
  abbrev Collected : GetAssertionResponse → List GetAssertionResponse → Type 0
  Collected first assertions =
      (rest : List GetAssertionResponse) × (assertions ≡ first ∷ rest)
      × (length rest ≡ first.number_of_credentials - 1)

  fresh_assertions :
      (many has_drain : Bool) (first : GetAssertionResponse) (w w' : World W)
      (assertions : List GetAssertionResponse)
      → ltb 1 first.number_of_credentials ≡ many
      → (if not many
            then pure (first ∷ [])
            else if not has_drain
            then fail (failure "ceremony" "multi-assertion drain requires a `Drain` hook")
            else (drained env crypto (first.number_of_credentials - 1) >>> λ others.
                pure (first ∷ others)))
          w
        ≡ (ok assertions, w')
      → Collected first assertions
  fresh_assertions false has_drain first w w' assertions e h =
      ([], sym (run_ok_inj h), ground (arith, e))
  fresh_assertions true false first w w' assertions e h = absurd cc
  fresh_assertions true true first w w' assertions e h = from_run _ _ h (λ others w1 came last. (
    others,
    sym (run_ok_inj last),
    drained-length (first.number_of_credentials - 1) w w1 others came,
  ))

  all_assertions-Collected :
      (has_drain : Bool) (first : GetAssertionResponse) (w w' : World W)
      (assertions : List GetAssertionResponse)
      → all_assertions env crypto has_drain first w ≡ (ok assertions, w')
      → Collected first assertions
  unfolding all_assertions
  all_assertions-Collected has_drain first w w' assertions h =
      fresh_assertions (ltb 1 first.number_of_credentials) has_drain first w w' assertions refl h

  -- When the exchange of a ceremony ends well, its assertions are the first response and as many
  -- others as the response's numberOfCredentials adds to the one, and the first is for one of the
  -- credentials that the caller allows, if the caller names any.
  pub exchange_pipeline-IsAllowed :
      (input : CeremonyInput) (has_drain : Bool) (w w' : World W) (outcome : GetAssertionOutcome)
      → exchange_pipeline env crypto input has_drain w ≡ (ok outcome, w')
      → (first : GetAssertionResponse) × (rest : List GetAssertionResponse) × (outcome.assertions
          ≡ first ∷ rest)
        × (length rest ≡ first.number_of_credentials - 1)
        × IsAllowed input.allow_credentials first.credential.id
  unfolding exchange_pipeline
  exchange_pipeline-IsAllowed input has_drain w w' outcome h = from_run _ _ h (λ event w1 e1 r1.
      from_run _ _ r1 (λ info w2 e2 r2. from_run _ _ r2 (λ auth w3 e3 r3.
        from_run _ _ r3 (λ request w4 e4 r4. from_run _ _ r4 (λ first w5 e5 r5.
          from_run _ _ r5 (λ assertions w6 e6 r6.
            let list = all_assertions-Collected has_drain first w5 w6 assertions e6 in
            let allow = wire_request-allow_list input info auth.0 request (settle_run _ w3 e4) in
            (
              first,
              list.0,
              sym (ap (λ (o : GetAssertionOutcome). o.assertions) (run_ok_inj r6)) ∙ list.1,
              list.2,
              only_allowed-IsAllowed input.allow_credentials first.credential.id (
                  subst
                    (λ (l : Option (List PublicKeyCredentialDescriptor)).
                      only_allowed l first.credential.id ≡ ok tt)
                    (sym allow) (exchanged-only_allowed request w4 w5 first e5)),
            )))))))
