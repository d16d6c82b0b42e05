-- ===== src/Soft/ClientPin/Lockout.antt =====
-- The counters of the soft token's clientPIN, and what they let a caller do.
use fidoh.Base.{
  ℕ, ◌+◌, ◌-◌, ◌≤◌, ◌==◌, leb, ◌≡◌, refl, subst, arith, Bool, true, false, ◌||◌, List, [], ◌∷◌,
  Outcome, err, Option, none, some, Bool-cases, inl, inr,
}
use fidoh.Core.Status.{StatusCode, invalid_command}
use fidoh.Core.Messages.Pin.{
  ClientPinRequest, ClientPinResponse, PinUvAuthProtocol, one, two, other,
}
use fidoh.Core.Crypto.{Primitives}
use fidoh.Soft.ClientPin.{
  ClientPinState, PinAgreement, SoftPin, set_register, spent, mismatched, restored, with_pin,
  set_pin, clear_pin, power_cycle,
}
use fidoh.Soft.ClientPin.Exchange.{state_reply, client_pin_exchange}
use fidoh.Soft.ClientPin.Ends.{
  token_of, IsOpen, Matches, Ends, kept, registered, attempted, wrong, matched, issued,
  state_reply-Ends,
}

-- At most eight tries, at most three mismatches, of which the third locks.
abbrev pub Holds : (retries mismatches : ℕ) → Bool → Type 0
Holds retries mismatches locked =
    (retries ≤ 8) × (mismatches ≤ 3) × (mismatches ≡ 3 → locked ≡ true)

abbrev pub IsSafeState : {K : Type 0} → Option (ClientPinState K) → Type 0
IsSafeState none = Unit
IsSafeState (some s) = Holds s.retries s.consecutive_mismatches s.power_cycle_locked

-- One more mismatch.
Holds-mismatch :
    (r m : ℕ) (l : Bool) → Holds r m l → l ≡ false → Holds (r - 1) (m + 1) (l || leb 3 (m + 1))
Holds-mismatch r m true h e = absurd cc
Holds-mismatch r m false (h, k, f) e =
    let unlocked : m ≤ 2 = elim (Bool-cases (m == 3)) [
      | inl q ↦ absurd (cc (f (ground arith)))
      | inr q ↦ ground arith
    ] in
    (omega arith, omega arith, λ q. ground arith)

module _ {K : Type 0} where
  registered_hold :
      (p : PinUvAuthProtocol) (agree : PinAgreement K) (s : ClientPinState K)
      → IsSafeState (some s)
      → IsSafeState (some (set_register p agree s))
  unfolding set_register
  registered_hold one agree s h = h
  registered_hold two agree s h = h
  registered_hold (other v) agree s h = h

  mapped_hold :
      (f : ClientPinState K → ClientPinState K) (o : Option (ClientPinState K))
      → ((s : ClientPinState K) → IsSafeState (some s) → IsSafeState (some (f s)))
      → IsSafeState o
      → IsSafeState
          (elim o as (λ x. Option (ClientPinState K)) [ none ↦ none | some s ↦ some (f s) ])
  mapped_hold f none k h = tt
  mapped_hold f (some s) k h = k s h

option_case :
    {A B : Type 0} (o : Option A) (x : B) (y : A → B) (Q : B → Type 0)
    → (o ≡ none → Q x)
    → ((a : A) → o ≡ some a → Q (y a))
    → Q (elim o as (λ v. B) [ none ↦ x | some a ↦ y a ])
option_case none x y Q f g = f refl
option_case (some a) x y Q f g = g a refl

module _ {W K P : Type 0} (prim : Primitives W K P) where
  -- What an exchange leaves of the counters, by the way in which it ends.
  Ends-hold :
      (request : ClientPinRequest) (s : ClientPinState K)
      {reply : Outcome StatusCode ClientPinResponse × ClientPinState K × W}
      → Ends prim request s reply
      → IsSafeState (some s)
      → IsSafeState (some reply.1)
  unfolding spent mismatched restored
  Ends-hold request s (kept r w n) h = h
  Ends-hold request s (registered r agree w n) h = registered_hold request.protocol agree s h
  Ends-hold request s (attempted e w o) (h, k, f) = (omega arith, k, f)
  Ends-hold request s (wrong w o) h = Holds-mismatch _ _ _ h o.1
  Ends-hold request s (matched e w o m) h = (omega arith, omega arith, λ q. absurd (omega arith))
  Ends-hold request s (issued r agree w o m) h =
      registered_hold request.protocol agree (restored (spent s))
        (omega arith, omega arith, λ q. absurd (omega arith))

  -- What holds of the reply without and with a PIN state holds of the exchange's.
  exchange_cases :
      (request : ClientPinRequest) (a : SoftPin K) (w : W)
      (Q : Outcome StatusCode ClientPinResponse × SoftPin K × W → Type 0)
      → (a.client_pin ≡ none → Q (err invalid_command, a, w))
      → ((s : ClientPinState K)
          → a.client_pin ≡ some s
          → Q (
            (state_reply prim a request s w).0,
            record a { client_pin = some (state_reply prim a request s w).1 },
            (state_reply prim a request s w).2,
          ))
      → Q (client_pin_exchange prim request a w)
  unfolding client_pin_exchange
  exchange_cases request a w Q f g = option_case a.client_pin _ _ Q f g

  -- What a caller of the authenticator can do to its PIN state.
  pub data Operation : Type 0 where
    exchange : ClientPinRequest → Operation
    pin_set : List ℕ → Operation
    pin_cleared power_cycled : Operation

  unfoldable pub perform : Operation → SoftPin K × W → SoftPin K × W
  perform (exchange request) (a, w) =
      let (reply, a', w') = client_pin_exchange prim request a w in (a', w')
  perform (pin_set pin) (a, w) = (set_pin prim pin a, w)
  perform pin_cleared (a, w) = (clear_pin a, w)
  perform power_cycled (a, w) = (power_cycle a, w)

  abbrev pub performs : List Operation → SoftPin K × W → SoftPin K × W
  performs [] state = state
  performs (o ∷ operations) state = performs operations (perform o state)

  with_pin_hold :
      (pin : List ℕ) (o : Option (ClientPinState K)) → IsSafeState (some (with_pin prim pin o))
  unfolding with_pin restored
  with_pin_hold pin none = (omega arith, omega arith, λ q. absurd (omega arith))
  with_pin_hold pin (some s) = (omega arith, omega arith, λ q. absurd (omega arith))

  perform_hold :
      (o : Operation) (a : SoftPin K) (w : W)
      → IsSafeState a.client_pin
      → IsSafeState (perform o (a, w)).0.client_pin
  unfolding perform set_pin clear_pin power_cycle restored
  perform_hold (exchange request) a w h =
      exchange_cases request a w (λ r. IsSafeState r.1.client_pin) (λ e. h)
        (λ s e. Ends-hold request s (state_reply-Ends prim request s a w) (subst IsSafeState e h))
  perform_hold (pin_set pin) a w h = with_pin_hold pin a.client_pin
  perform_hold pin_cleared a w h =
      mapped_hold _ a.client_pin (λ s g. (omega arith, omega arith, λ q. absurd (omega arith))) h
  perform_hold power_cycled a w h =
      mapped_hold _ a.client_pin (λ s g. (g.0, omega arith, λ q. absurd (omega arith))) h

  -- Over any requests, changes of the PIN and power cycles, the retries stay at most 8 and the
  -- consecutive mismatches at most 3, and a third mismatch has locked the PIN, if it is so at first; an
  -- authenticator without a PIN state is so.
  pub performs-IsSafeState :
      (operations : List Operation) (a : SoftPin K) (w : W)
      → IsSafeState a.client_pin
      → IsSafeState (performs operations (a, w)).0.client_pin
  performs-IsSafeState [] a w h = h
  performs-IsSafeState (o ∷ operations) a w h =
      performs-IsSafeState operations (perform o (a, w)).0 (perform o (a, w)).1
        (perform_hold o a w h)

  token_taken :
      (request : ClientPinRequest) (s : ClientPinState K)
      {reply : Outcome StatusCode ClientPinResponse × ClientPinState K × W} {t : List ℕ}
      → Ends prim request s reply
      → token_of reply.0 ≡ some t
      → IsOpen s × Matches prim request s
  token_taken request s (kept r w n) h = absurd (cc (n, h))
  token_taken request s (registered r agree w n) h = absurd (cc (n, h))
  token_taken request s (attempted e w o) h = absurd cc
  token_taken request s (wrong w o) h = absurd cc
  token_taken request s (matched e w o m) h = absurd cc
  token_taken request s (issued r agree w o m) h = (o, m)

  -- A reply that carries a token takes a PIN state with retries left and no lock, and a request whose
  -- pinHashEnc decrypts, under some secret, to the hash of the PIN that is set.
  pub client_pin_exchange-Matches :
      (request : ClientPinRequest) (a : SoftPin K) (w : W) (t : List ℕ)
      → token_of (client_pin_exchange prim request a w).0 ≡ some t
      → (s : ClientPinState K) × (a.client_pin ≡ some s) × IsOpen s × Matches prim request s
  client_pin_exchange-Matches request a w t =
      exchange_cases request a w
        (λ r.
          token_of r.0 ≡ some t
          → (s : ClientPinState K) × (a.client_pin ≡ some s) × IsOpen s × Matches prim request s)
        (λ e h. absurd cc)
        (λ s e h.
          let taken = token_taken request s (state_reply-Ends prim request s a w) h in
          (s, e, taken.0, taken.1))
