-- ===== src/Core/Ceremony/Bound.antt =====
-- The keepalive loop of ceremony.rs ends with every device that cannot report progress for ever.
use fidoh.Base.{
  ℕ, zero, suc, ◌<◌, ◌≡◌, refl, arith, Bool, true, false, Outcome, ok, err, Bool-cases, ◌==◌,
  if◌then◌else◌, inl, inr,
}
use fidoh.Core.Time.{Phase, wait, raced, expired, Race, hop_first, timer_first}
use fidoh.Core.Errors.{Error}
use fidoh.Core.Ceremony.{CeremonyError, TransportError, timeout}
use fidoh.Core.Ceremony.Run.{
  CtapCommand, DeviceEvent, keepalive, response, World, Outside, Run, Stop, pure, settle, and_then,
  fail, fails, panics, unfollowed, ◌>>=◌,
}
use fidoh.Core.Ceremony.Hops.{keepalive_loop, loop_hop, loop_event, loop_phase}

-- How a run that is followed to its end ends: with a response, or with an error of the ceremony.
abbrev pub Ended : Outcome Stop DeviceEvent → Type 0
Ended (ok (response status body)) = Unit
Ended (ok (keepalive status)) = ⊥
Ended (err (fails e)) = Unit
Ended (err (panics message)) = ⊥
Ended (err unfollowed) = ⊥

module _ {W : Type 0} (env : Outside W) (cmd : CtapCommand) (measure : World W → ℕ) where
  -- A hop that surfaces a keepalive while budget is left lowers the measure: the budget that it
  -- spends, keepalives that are still to come, or both.
  abbrev pub Spends : Type 0
  Spends =
      (w w' : World W) (status : ℕ)
      → 0 < w.deadline.remaining
      → env.send cmd w ≡ (hop_first (ok (keepalive status)), w')
      → measure w' < measure w

  came_in :
      (spent seen : Bool) (phase : Phase) (r : Race (Outcome (Error TransportError) DeviceEvent))
      (w₀ w w' : World W) (e : DeviceEvent)
      → spent ≡ false
      → settle
          (loop_event seen (if spent then expired phase else raced phase r))
          (if spent then w₀ else w)
        ≡ (ok e, w')
      → (r ≡ hop_first (ok e)) × (w ≡ w')
  unfolding loop_event settle raced
  came_in true seen phase r w₀ w w' e s h = absurd cc
  came_in false seen phase (hop_first (ok e')) w₀ w w' e s h = (cc, cc)
  came_in false seen phase (hop_first (err e')) w₀ w w' e s h = absurd cc
  came_in false seen phase timer_first w₀ w w' e s h = absurd cc

  expired_hop :
      (seen : Bool) (w : World W)
      → w.deadline.remaining ≡ 0
      → loop_hop env seen cmd w ≡ fail (timeout (loop_phase seen cmd)) w
  unfolding loop_hop loop_event settle wait
  expired_hop seen w h = ground (arith, h)

  spent_hop :
      Spends
      → (seen : Bool) (w w' : World W) (status : ℕ)
      → loop_hop env seen cmd w ≡ (ok (keepalive status), w')
      → measure w' < measure w
  unfolding loop_hop wait
  spent_hop spends seen w w' status h = elim (Bool-cases (w.deadline.remaining == 0)) [
    | inl z ↦ absurd (cc (expired_hop seen w (ground (arith, z)), h))
    | inr p ↦
        let came =
          came_in (w.deadline.remaining == 0) seen (loop_phase seen cmd) (env.send cmd w).0 w
            (env.send cmd w).1 w' (keepalive status) p h in
        spends w w' status (ground (arith, p)) (cc (came.0, came.1))
  ]

  -- What goes on behind a hop matters where the hop was a keepalive.
  continued :
      (p : Outcome Stop DeviceEvent × World W) (f g : Run W DeviceEvent)
      → ((status : ℕ) (w' : World W) → p ≡ (ok (keepalive status), w') → f w' ≡ g w')
      → and_then p (λ event. elim event [
        | keepalive status ↦ f
        | response status body ↦ pure (response status body)
      ])
        ≡ and_then p (λ event. elim event [
          | keepalive status ↦ g
          | response status body ↦ pure (response status body)
        ])
  unfolding and_then
  continued (ok (keepalive status), w) f g h = h status w refl
  continued (ok (response status body), w) f g h = refl
  continued (err e, w) f g h = refl

  bounds_agree :
      Spends
      → (m n : ℕ) (seen : Bool) (w : World W) → measure w < m
      → measure w < n
      → keepalive_loop env m seen cmd w ≡ keepalive_loop env n seen cmd w
  unfolding keepalive_loop and_then
  bounds_agree spends zero n seen w a b = absurd (omega arith)
  bounds_agree spends (suc m) zero seen w a b = absurd (omega arith)
  bounds_agree spends (suc m) (suc n) seen w a b =
      continued (loop_hop env seen cmd w) (keepalive_loop env m true cmd)
        (keepalive_loop env n true cmd)
        (λ status w' h.
          let less = spent_hop spends seen w w' status h in
          bounds_agree spends m n true w' (omega arith) (omega arith))

  -- The body of the `loop` in the source, with what a `continue` goes on with.
  abbrev pub turn : Bool → Run W DeviceEvent → Run W DeviceEvent
  turn seen again = loop_hop env seen cmd >>= λ event. elim event [
    | keepalive status ↦ again
    | response status body ↦ pure (response status body)
  ]

  -- Enough turns are those of the `loop`.
  pub keepalive_loop_unrolls :
      Spends
      → (bound : ℕ) (seen : Bool) (w : World W) → measure w < bound
      → keepalive_loop env bound seen cmd w
        ≡ turn seen (λ w'. keepalive_loop env (suc (measure w')) true cmd w') w
  unfolding keepalive_loop and_then
  keepalive_loop_unrolls spends zero seen w b = absurd (omega arith)
  keepalive_loop_unrolls spends (suc bound) seen w b =
      continued (loop_hop env seen cmd w) (keepalive_loop env bound true cmd)
        (λ w'. keepalive_loop env (suc (measure w')) true cmd w')
        (λ status w' h.
          let less = spent_hop spends seen w w' status h in
          bounds_agree spends bound (suc (measure w')) true w' (omega arith) (omega arith))

  hop_settles :
      (r : Outcome CeremonyError DeviceEvent) (w : World W) (more : Run W DeviceEvent)
      → ((status : ℕ) (w' : World W)
          → ◌≡◌ {A = Outcome Stop DeviceEvent × World W} (settle r w) (ok (keepalive status), w')
          → Ended (more w').0)
      → Ended
          (and_then (settle r w) (λ event. elim event [
            | keepalive status ↦ more
            | response status body ↦ pure (response status body)
          ])).0
  unfolding settle and_then
  hop_settles (ok (keepalive status)) w more f = f status w refl
  hop_settles (ok (response status body)) w more f = tt
  hop_settles (err e) w more f = tt

  -- If some measure of the device and the budget falls with every keepalive that comes while budget is
  -- left, the loop ends, within one turn more than the measure: with a response and never with a keepalive,
  -- or with an error of the ceremony.
  pub keepalive_loop-Ended :
      Spends
      → (bound : ℕ) (seen : Bool) (w : World W) → measure w < bound
      → Ended (keepalive_loop env bound seen cmd w).0
  unfolding keepalive_loop loop_hop
  keepalive_loop-Ended spends zero seen w b = absurd (omega arith)
  keepalive_loop-Ended spends (suc bound) seen w b =
      hop_settles _ _ (keepalive_loop env bound true cmd) (λ status w' h.
        let less = spent_hop spends seen w w' status h in
        keepalive_loop-Ended spends bound true w' (omega arith))
