-- ===== src/Core/Ceremony/Loop.antt =====
-- The keepalive loop of ceremony.rs: the answer of a device comes out of it.
use fidoh.Base.{ℕ, zero, suc, ◌≤◌, ◌<◌, ◌≡◌, refl, arith, Bool, true, List, ok}
use fidoh.Core.Time.{hop_first, wait}
use fidoh.Core.Ceremony.Run.{
  CtapCommand, DeviceEvent, keepalive, response, World, Outside, settle, and_then,
}
use fidoh.Core.Ceremony.Hops.{keepalive_loop, loop_hop, loop_event}

module _ {W : Type 0} (env : Outside W) (cmd : CtapCommand) where
  -- A device that reports progress from w, and answers in the end, within the budget.
  pub data Answers : World W → DeviceEvent → World W → Type 0 where
    answer :
        {w w' : World W} (status : ℕ) (body : List ℕ)
        → 0 < w.deadline.remaining
        → env.send cmd w ≡ (hop_first (ok (response status body)), w')
        → Answers w (response status body) w'
    progress :
        {w w' w'' : World W} {e : DeviceEvent} (status : ℕ)
        → w'.deadline.remaining < w.deadline.remaining
        → env.send cmd w ≡ (hop_first (ok (keepalive status)), w')
        → Answers w' e w''
        → Answers w e w''

  hop_arrives :
      (seen : Bool) (w w' : World W) (e : DeviceEvent)
      → 0 < w.deadline.remaining
      → env.send cmd w ≡ (hop_first (ok e), w')
      → loop_hop env seen cmd w ≡ (ok e, w')
  unfolding loop_hop loop_event settle wait
  hop_arrives seen w w' e p h = ground (arith, h)

  pub keepalive_loop-Answers :
      (bound : ℕ) (seen : Bool) {w w' : World W} {e : DeviceEvent}
      → Answers w e w'
      → w.deadline.remaining ≤ bound
      → keepalive_loop env bound seen cmd w ≡ (ok e, w')
  unfolding keepalive_loop and_then
  keepalive_loop-Answers zero seen (answer status body p h) b = absurd (omega arith)
  keepalive_loop-Answers (suc bound) seen {w} {w'} (answer status body p h) b =
      rw (hop_arrives seen w w' (response status body) p h) refl
  keepalive_loop-Answers zero seen (progress status p h a) b = absurd (omega arith)
  keepalive_loop-Answers (suc bound) seen {w} (progress {w' = w1} status p h a) b =
      rw (hop_arrives seen w w1 (keepalive status) (omega arith) h)
        (keepalive_loop-Answers bound true a (omega arith))
