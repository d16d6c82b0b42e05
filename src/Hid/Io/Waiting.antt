-- ===== src/Hid/Io/Waiting.antt =====
-- The read loop of fd_wait.rs and the receive loop of fsm.rs end, and spend the budget only while
-- nothing is there to be read.
use fidoh.Base.{
  ℕ, zero, suc, ◌≤◌, ◌<◌, ◌≡◌, refl, ap, arith, List, [], ◌∷◌, ◌++◌, length, ok, err, Outcome,
}
use fidoh.Core.Time.{Phase, consume_slice}
use fidoh.Hid.Errors.{FramingError}
use fidoh.Hid.Assembler.{Step, Assembler, continue, finished, busy, step}
use fidoh.Hid.Io.{
  ReadEvent, report, nothing, gone, unfollowed, Io, Ran, returned, out_of_fuel, Polled, settled,
  ticked, lost, tick, ticking, poll, poll_events, read_report_bounded, enough, receive,
  receive_loop, Received, received, starved, outcome, was_busy, fatal, framed,
}

-- How often the list of reads is broken off.
abbrev pub breaks : List ReadEvent → ℕ
breaks [] = 0
breaks (report r ∷ es) = breaks es
breaks (nothing ∷ es) = breaks es
breaks (gone ∷ es) = breaks es
breaks (unfollowed ∷ es) = suc (breaks es)

-- The budget and what is left to read do not grow.
pub record NoMore (io io' : Io) : Type 0 where
  pub budget : io'.deadline.remaining ≤ io.deadline.remaining
  pub events : length io'.events ≤ length io.events
  pub breaks : breaks io'.events ≤ breaks io.events

-- One round: a report is taken off what is to be read, and a round that waits spends some budget.
abbrev PollSpends : Io → Polled → Type 0
PollSpends io (settled (ok r) io') = NoMore io io' × (length io'.events < length io.events)
PollSpends io (settled (err e) io') = NoMore io io'
PollSpends io (ticked io') = NoMore io io' × (io'.deadline.remaining < io.deadline.remaining)
PollSpends io lost = 0 < breaks io.events

poll-PollSpends : (phase : Phase) (io : Io) → PollSpends io (poll phase io)
unfolding poll tick ticking consume_slice
poll-PollSpends phase io = go io.events refl
  where
    go : (es : List ReadEvent) → io.events ≡ es → PollSpends io (poll_events phase io es)
    go [] e = ground (arith, ap breaks e)
    go (report r ∷ es) e = ground (arith, ap length e, ap breaks e)
    go (nothing ∷ es) e = ground (arith, ap length e, ap breaks e)
    go (gone ∷ es) e = ground (arith, ap length e, ap breaks e)
    go (unfollowed ∷ es) e = omega (arith, ap breaks e)

abbrev pub ReadSpends : Io → Ran Io (List ℕ) → Type 0
ReadSpends io (returned (ok r) io') = NoMore io io' × (length io'.events < length io.events)
ReadSpends io (returned (err e) io') = NoMore io io'
ReadSpends io out_of_fuel = 0 < breaks io.events

pub read_ends :
    (fuel : ℕ) (phase : Phase) (io : Io)
    → io.deadline.remaining < fuel
    → ReadSpends io (read_report_bounded fuel phase io)
unfolding read_report_bounded
read_ends zero phase io h = absurd (omega arith)
read_ends (suc fuel) phase io h =
    go (poll phase io) (poll-PollSpends phase io)
      (λ io' less. read_ends fuel phase io' (omega arith))
  where
    go :
        (p : Polled)
        → PollSpends io p
        → ((io' : Io)
            → io'.deadline.remaining < io.deadline.remaining
            → ReadSpends io' (read_report_bounded fuel phase io'))
        → ReadSpends io (elim p [
          | settled r io' ↦ returned r io'
          | ticked io' ↦ read_report_bounded fuel phase io'
          | lost ↦ out_of_fuel
        ])
    go (settled (ok r) io') q rest = q
    go (settled (err e) io') q rest = q
    go lost q rest = q
    go (ticked io') q rest = on_tick (read_report_bounded fuel phase io') (rest io' q.1)
      where
        on_tick : (r : Ran Io (List ℕ)) → ReadSpends io' r → ReadSpends io r
        on_tick (returned (ok r) io'') w = omega arith
        on_tick (returned (err e) io'') w = omega arith
        on_tick out_of_fuel w = omega arith

abbrev pub ReceiveSpends : Io → Received → Type 0
ReceiveSpends io (received o io') = NoMore io io'
ReceiveSpends io starved = 0 < breaks io.events

abbrev pub after_step : ℕ → ℕ → Phase → Io → Outcome FramingError Step → Received
after_step fuel cmd phase io (err e) = received (fatal (framed e)) io
after_step fuel cmd phase io (ok (continue a more)) =
    receive fuel cmd phase a (record io { surfaced = io.surfaced ++ more })
after_step fuel cmd phase io (ok (finished o)) = received (outcome o) io
after_step fuel cmd phase io (ok busy) = received was_busy io

abbrev pub after_read : ℕ → ℕ → Phase → Assembler → Ran Io (List ℕ) → Received
after_read fuel cmd phase a out_of_fuel = starved
after_read fuel cmd phase a (returned (err e) io) = received (fatal e) io
after_read fuel cmd phase a (returned (ok r) io) = after_step fuel cmd phase io (step a cmd r)

step_cases :
    (o : Outcome FramingError Step) (fuel cmd : ℕ) (phase : Phase) (io : Io)
    → elim o [
      | err e ↦ received (fatal (framed e)) io
      | ok (continue a more) ↦
          receive fuel cmd phase a (record io { surfaced = io.surfaced ++ more })
      | ok (finished o) ↦ received (outcome o) io
      | ok busy ↦ received was_busy io
    ]
      ≡ after_step fuel cmd phase io o
step_cases (err e) fuel cmd phase io = refl
step_cases (ok (continue a more)) fuel cmd phase io = refl
step_cases (ok (finished o)) fuel cmd phase io = refl
step_cases (ok busy) fuel cmd phase io = refl

read_cases :
    (r : Ran Io (List ℕ)) (fuel cmd : ℕ) (phase : Phase) (a : Assembler)
    → elim r [
      | out_of_fuel ↦ starved
      | returned (err e) io' ↦ received (fatal e) io'
      | returned (ok r) io' ↦ elim (step a cmd r) [
        | err e ↦ received (fatal (framed e)) io'
        | ok (continue a' more) ↦
            receive fuel cmd phase a' (record io' { surfaced = io'.surfaced ++ more })
        | ok (finished o) ↦ received (outcome o) io'
        | ok busy ↦ received was_busy io'
      ]
    ]
      ≡ after_read fuel cmd phase a r
read_cases out_of_fuel fuel cmd phase a = refl
read_cases (returned (err e) io) fuel cmd phase a = refl
read_cases (returned (ok r) io) fuel cmd phase a = step_cases (step a cmd r) fuel cmd phase io

-- The loop as a chain of its two stages.
pub receive_unrolled :
    (fuel cmd : ℕ) (phase : Phase) (a : Assembler) (io : Io)
    → receive (suc fuel) cmd phase a io
      ≡ after_read fuel cmd phase a (read_report_bounded (enough io) phase io)
unfolding receive
receive_unrolled fuel cmd phase a io =
    read_cases (read_report_bounded (enough io) phase io) fuel cmd phase a

pub receive_ends :
    (fuel cmd : ℕ) (phase : Phase) (a : Assembler) (io : Io)
    → length io.events < fuel
    → ReceiveSpends io (receive fuel cmd phase a io)
receive_ends zero cmd phase a io h = absurd (omega arith)
receive_ends (suc fuel) cmd phase a io h = rw receive_unrolled (
    on_read (read_report_bounded (enough io) phase io)
      (read_ends (enough io) phase io (omega arith))
      (λ b io' less. receive_ends fuel cmd phase b io' less))
  where
    on_step :
        (o : Outcome FramingError Step) (io' : Io)
        → NoMore io io'
        → length io'.events < fuel
        → ((b : Assembler) (seen : List ℕ)
            → ReceiveSpends
                (record io' { surfaced = seen })
                (receive fuel cmd phase b (record io' { surfaced = seen })))
        → ReceiveSpends io (after_step fuel cmd phase io' o)
    on_step (err e) io' w less rest = w
    on_step (ok (continue b more)) io' w less rest =
        widen (receive fuel cmd phase b (record io' { surfaced = io'.surfaced ++ more }))
          (rest b (io'.surfaced ++ more))
      where
        widen :
            (r : Received)
            → ReceiveSpends (record io' { surfaced = io'.surfaced ++ more }) r
            → ReceiveSpends io r
        widen (received o io'') v = omega arith
        widen starved v = omega arith
    on_step (ok (finished o)) io' w less rest = w
    on_step (ok busy) io' w less rest = w

    on_read :
        (r : Ran Io (List ℕ))
        → ReadSpends io r
        → ((b : Assembler) (io' : Io)
            → length io'.events < fuel
            → ReceiveSpends io' (receive fuel cmd phase b io'))
        → ReceiveSpends io (after_read fuel cmd phase a r)
    on_read out_of_fuel w ih = w
    on_read (returned (err e) io') w ih = w
    on_read (returned (ok r) io') w ih =
        on_step (step a cmd r) io' w.0 (omega arith)
          (λ b seen. ih b (record io' { surfaced = seen }) (omega arith))

-- The receive loop returns, without more budget or more to read than before, unless the fd is not
-- followed to its silence.
pub receive_loop_ends :
    (cid cmd : ℕ) (phase : Phase) (io : Io) → ReceiveSpends io (receive_loop cid cmd phase io)
unfolding receive_loop
receive_loop_ends cid cmd phase io =
    receive_ends (suc (length io.events)) cmd phase _ io (omega arith)
