-- ===== src/Hid/Io/Ready.antt =====
-- Reports that are already there are folded by the loops of fsm.rs and fd_wait.rs without a look
-- at the budget.
use fidoh.Hid.Io.Waiting.{after_step, receive_unrolled}
use fidoh.Base.{
  ℕ, zero, suc, ◌≤◌, ◌≡◌, refl, arith, List, [], ◌∷◌, ◌++◌, length, map, length-map, length-append,
  ok, err, Outcome,
}
use fidoh.Core.Time.{Phase}
use fidoh.Hid.Errors.{FramingError}
use fidoh.Hid.Assembler.{
  Step, new, Assembler, continue, finished, busy, step, steps, resolved, device_busy, failed,
  TransactionOutcome,
}
use fidoh.Hid.Io.{
  ReadEvent, report, Io, returned, poll, poll_events, read_report_bounded, receive, receive_loop,
  Received, received, outcome,
}

-- The io in front of reports that can be read at once.
abbrev pub reading : List (List ℕ) → List ReadEvent → List ℕ → Io → Io
reading rs es seen io = record io { events = map report rs ++ es; surfaced = seen }

read-report :
    (fuel : ℕ) (phase : Phase) (r : List ℕ) (rs : List (List ℕ)) (es : List ReadEvent)
    (seen : List ℕ) (io : Io)
    → read_report_bounded (suc fuel) phase (reading (r ∷ rs) es seen io)
      ≡ returned (ok r) (reading rs es seen io)
unfolding read_report_bounded poll poll_events
read-report fuel phase r rs es seen io = refl

pub read_ready :
    (fuel : ℕ) (phase : Phase) (r : List ℕ) (es : List ReadEvent) (io : Io)
    → read_report_bounded (suc fuel) phase (record io { events = report r ∷ es })
      ≡ returned (ok r) (record io { events = es })
unfolding read_report_bounded poll poll_events
read_ready fuel phase r es io = refl

-- What a fold that resolves means for the loop.
abbrev Resolves : Received → TransactionOutcome → List ℕ → Io → Type 0
Resolves r o all io =
    (left : List ReadEvent) × (r
      ≡ received (outcome o) (record io { events = left; surfaced = all }))

pub receive-steps :
    (rs : List (List ℕ)) (fuel cmd : ℕ) (phase : Phase) (a : Assembler) (es : List ReadEvent)
    (seen : List ℕ) (io : Io) {o : TransactionOutcome} {all : List ℕ}
    → length rs ≤ fuel
    → steps rs cmd a seen ≡ resolved o all
    → (left : List ReadEvent) × (receive fuel cmd phase a (reading rs es seen io)
        ≡ received (outcome o) (record io { events = left; surfaced = all }))
unfolding steps
receive-steps [] fuel cmd phase a es seen io h e = cc
receive-steps (r ∷ rs) zero cmd phase a es seen io h e = absurd (omega arith)
receive-steps (r ∷ rs) (suc fuel) cmd phase a es seen io {o = o} {all = all} h e =
    rw receive_unrolled (
      rw read-report (
        go (step a cmd r) e
          (λ b more e'. receive-steps rs fuel cmd phase b es more io (omega arith) e')))
  where
    go :
        (s : Outcome FramingError Step)
        → elim s [
          | ok (continue a' more) ↦ steps rs cmd a' (seen ++ more)
          | ok (finished o') ↦ resolved o' seen
          | ok busy ↦ device_busy seen
          | err e ↦ failed e seen
        ]
          ≡ resolved o all
        → ((b : Assembler) (more : List ℕ)
            → steps rs cmd b more ≡ resolved o all
            → Resolves (receive fuel cmd phase b (reading rs es more io)) o all io)
        → Resolves (after_step fuel cmd phase (reading rs es seen io) s) o all io
    go (ok (continue b more)) e ih = ih b (seen ++ more) e
    go (ok (finished o')) e ih = (map report rs ++ es, cc)
    go (ok busy) e ih = cc
    go (err x) e ih = cc

-- The whole loop, from a new assembler, over reports that resolve the transaction.
pub receive_loop-steps :
    (rs : List (List ℕ)) (cid cmd : ℕ) (phase : Phase) (es : List ReadEvent) (seen : List ℕ)
    (io : Io) {o : TransactionOutcome} {all : List ℕ}
    → steps rs cmd (new cid) seen ≡ resolved o all
    → (left : List ReadEvent) × (receive_loop cid cmd phase (reading rs es seen io)
        ≡ received (outcome o) (record io { events = left; surfaced = all }))
unfolding receive_loop
receive_loop-steps rs cid cmd phase es seen io e =
    receive-steps rs (suc (length (map report rs ++ es))) cmd phase (new cid) es seen io
      (omega (arith, length-append (map report rs) es, length-map rs report)) e
