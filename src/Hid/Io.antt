-- ===== src/Hid/Io.antt =====
-- crates/fidoh-transport-hid/src/fd_wait.rs and the receive loop of src/fsm.rs. The fd is
-- what its nonblocking reads return, in order, and which of its writes fail; a list that has run
-- out stands for an fd with nothing to read and no fault. An fd without end is each of its beginnings, with
-- `unfollowed` behind it. Sleeping changes nothing but the budget.
pub mod Waiting
pub mod Writing
pub mod Ready
pub mod Endless
use fidoh.Base.{
  ℕ, zero, suc, ◌+◌, ◌*◌, ◌%◌, ◌^◌, List, [], ◌∷◌, ◌++◌, length, take, drop, get_or, Option, none,
  some, Bool, true, false, ◌||◌, not, ltb, ◌==◌, if◌then◌else◌, to_be_bytes, from_be_bytes,
  bytes_eq, Outcome, ok, err,
}
use fidoh.Core.Time.{Deadline, Phase, consume_slice}
use fidoh.Core.Errors.{Error, timeout, device_gone}
use fidoh.Hid.Errors.{
  HidError, FramingError, framing, no_cbor, nonce_mismatch, reserved_cid, init_response_short,
  unexpected_command, cbor,
}
use fidoh.Hid.Packet.{
  encode_message, InitHeader, parse_init_header, broadcast_cid, cmd_init, cmd_cbor, cmd_cancel,
}
use fidoh.Hid.Assembler
use fidoh.Hid.Assembler.{Assembler, Step, TransactionOutcome, continue, finished, busy, step}

pub data ReadEvent : Type 0 where
  report : List ℕ → ReadEvent
  nothing : ReadEvent
  gone : ReadEvent
  -- the run is not followed from this read on
  unfollowed : ReadEvent

pub record Io : Type 0 where
  pub events : List ReadEvent
  -- the result of each coming write, `none` for success
  pub faults : List (Option HidError)
  pub written : List (List ℕ)
  pub deadline : Deadline
  -- the statuses handed to `on_keepalive`
  pub surfaced : List ℕ

pub data FsmError : Type 0 where
  hid : HidError → FsmError
  core : Error HidError → FsmError

abbrev pub framed : FramingError → FsmError
framed e = hid (framing e)

-- A run on fuel: what the code returns with the state it leaves, or neither, for want of fuel or of
-- a read that is followed.
pub data Ran {ℓ} (S A : Type ℓ) : Type ℓ where
  returned : Outcome FsmError A → S → Ran S A
  out_of_fuel : Ran S A

-- `READ_POLL_QUANTUM`, 5 ms, and `BUSY_RETRY_DELAY`, 50 ms.
abbrev pub read_poll_quantum : ℕ
read_poll_quantum = 5_000_000

abbrev pub busy_retry_delay : ℕ
busy_retry_delay = 50_000_000

-- One round of the loop in `read_report_bounded`.
pub data Polled : Type 0 where
  settled : Outcome FsmError (List ℕ) → Io → Polled
  ticked : Io → Polled
  lost : Polled

ticking : Phase → Io → Option ℕ × Deadline → Polled
ticking phase io (none, d) = settled (err (core (timeout phase))) (record io { deadline = d })
ticking phase io (some granted, d) = ticked (record io { deadline = d })

tick : Phase → Io → Polled
unfolding ticking
tick phase io = ticking phase io (consume_slice read_poll_quantum io.deadline)

poll_events : Phase → Io → List ReadEvent → Polled
unfolding tick
poll_events phase io [] = tick phase io
poll_events phase io (report r ∷ es) = settled (ok r) (record io { events = es })
poll_events phase io (nothing ∷ es) = tick phase (record io { events = es })
poll_events phase io (gone ∷ es) = settled (err (core device_gone)) (record io { events = es })
poll_events phase io (unfollowed ∷ es) = lost

pub poll : Phase → Io → Polled
unfolding poll_events
poll phase io = poll_events phase io io.events

-- `read_report_bounded`.
pub read_report_bounded : ℕ → Phase → Io → Ran Io (List ℕ)
read_report_bounded zero phase io = out_of_fuel
read_report_bounded (suc fuel) phase io = elim (poll phase io) [
  | settled r io' ↦ returned r io'
  | ticked io' ↦ read_report_bounded fuel phase io'
  | lost ↦ out_of_fuel
]

-- A tick spends a nanosecond at least, so this fuel is enough (`Waiting`).
abbrev pub enough : Io → ℕ
enough io = suc io.deadline.remaining

-- How one attempt of a transaction ends: `Ok`, `LoopFailure::Busy` or `LoopFailure::Fatal`.
pub data Attempt : Type 0 where
  outcome : TransactionOutcome → Attempt
  was_busy : Attempt
  fatal : FsmError → Attempt

pub data Received : Type 0 where
  received : Attempt → Io → Received
  starved : Received

-- `Fsm::receive_loop`, from an assembler on.
pub receive : ℕ → ℕ → Phase → Assembler → Io → Received
receive zero cmd phase a io = starved
receive (suc fuel) cmd phase a io = elim (read_report_bounded (enough io) phase io) [
  | out_of_fuel ↦ starved
  | returned (err e) io' ↦ received (fatal e) io'
  | returned (ok r) io' ↦ elim (step a cmd r) [
    | err e ↦ received (fatal (framed e)) io'
    | ok (continue a' more) ↦
        receive fuel cmd phase a' (record io' { surfaced = io'.surfaced ++ more })
    | ok (finished o) ↦ received (outcome o) io'
    | ok busy ↦ received was_busy io'
  ]
]

-- Every round reads an event or ends, so this fuel is enough (`Waiting`).
pub receive_loop : ℕ → ℕ → Phase → Io → Received
receive_loop cid cmd phase io = receive (suc (length io.events)) cmd phase (Assembler.new cid) io

written_by : List ℕ → List (Option HidError) → Io → Outcome FsmError (Unit {0}) × Io
written_by p [] io = (ok tt, record io { written = io.written ++ (p ∷ []) })
written_by p (none ∷ fs) io = (ok tt, record io { faults = fs; written = io.written ++ (p ∷ []) })
written_by p (some e ∷ fs) io = (err (hid e), record io { faults = fs })

-- `self.fd.write_report(p).map_err(FsmError::Hid)`.
pub write_report : List ℕ → Io → Outcome FsmError (Unit {0}) × Io
unfolding written_by
write_report p io = written_by p io.faults io

-- `for p in &packets { write_report(p)? }`.
pub write_all : List (List ℕ) → Io → Outcome FsmError (Unit {0}) × Io
write_all [] io = (ok tt, io)
write_all (p ∷ ps) io =
    let (r, io') = write_report p io in elim r [ ok u ↦ write_all ps io' | err e ↦ (err e, io') ]
