-- ===== src/Core/Time.antt =====
-- The single budget: crates/fidoh-core/src/time.rs, with the slices of
-- crates/fidoh-core/src/policy.rs. A duration is its number of nanoseconds, and the atomic
-- counter of a `Deadline` is read and written by one sequential flow, so it is passed as a state.
pub mod Budget
use fidoh.Base.{
  ℕ, ◌-◌, ◌*◌, ◌^◌, min, Bool, true, false, Option, none, some, ltb, ◌==◌, if◌then◌else◌,
}

pub data Phase : Type 0 where
  enumeration connect channel_open command_exchange user_presence : Phase
  get_assertion get_info get_next_assertion client_pin release : Phase

pub record Deadline : Type 0 where
  pub remaining : ℕ

abbrev u64_max : ℕ
u64_max = 2 ^ 64 - 1

-- `nanos`: saturating at `u64::MAX`.
unfoldable pub nanos : ℕ → ℕ
nanos d = if ltb u64_max d then u64_max else d

abbrev pub seconds : ℕ → ℕ
seconds n = n * 1_000_000_000

-- `DEFAULT_WAIT_SLICE` and `NFC_POLL_SLICE`.
abbrev pub default_wait_slice : ℕ
default_wait_slice = seconds 30

abbrev pub nfc_poll_slice : ℕ
nfc_poll_slice = seconds 1

-- `Deadline::new`.
unfoldable pub new : ℕ → Deadline
unfolding nanos
new total = record { remaining = nanos total }

-- What `Deadline::consume` returns: the remainder, or `Error::Timeout(Phase::CommandExchange)`.
pub data Spent : Type 0 where
  left : ℕ → Spent
  exhausted : Phase → Spent

-- `Deadline::consume`.
unfoldable pub consume : ℕ → Deadline → Spent × Deadline
unfolding nanos
consume d s =
    if ltb s.remaining (nanos d)
    then (exhausted Phase.command_exchange, record { remaining = 0 })
    else (left (s.remaining - nanos d), record { remaining = s.remaining - nanos d })

-- `Deadline::consume_slice`.
unfoldable pub consume_slice : ℕ → Deadline → Option ℕ × Deadline
unfolding nanos
consume_slice requested s = if s.remaining == 0 then (none, s) else (
  some (min (nanos requested) s.remaining),
  record { remaining = s.remaining - min (nanos requested) s.remaining },
)

-- What the race of a hop against a timer ends with: the hop's output, or the timer.
pub data Race {ℓ} (A : Type ℓ) : Type ℓ where
  hop_first : A → Race A
  timer_first : Race A

pub data Waited {ℓ} (A : Type ℓ) : Type ℓ where
  output : A → Waited A
  expired : Phase → Waited A

unfoldable pub raced {ℓ} : {A : Type ℓ} → Phase → Race A → Waited A
raced phase (hop_first a) = output a
raced phase timer_first = expired phase

-- `Deadline::wait`: `race` is how the hop ends against a timer of the given length.
unfoldable pub wait {ℓ} : {A : Type ℓ} → Deadline → Phase → (ℕ → Race A) → Waited A
unfolding raced
wait s phase race = if s.remaining == 0 then expired phase else raced phase (race s.remaining)

-- `SliceGrant` and `grant`.
pub record SliceGrant : Type 0 where
  pub granted : ℕ
  pub remaining_after : ℕ

granted_of : Option ℕ × Deadline → Option SliceGrant × Deadline
granted_of (none, s) = (none, s)
granted_of (some g, s) = (some (record { granted = g; remaining_after = s.remaining }), s)

pub grant : Deadline → ℕ → Option SliceGrant × Deadline
unfolding granted_of
grant s requested = granted_of (consume_slice requested s)

pub ctaphid_read_slice : Deadline → Option SliceGrant × Deadline
unfolding grant
ctaphid_read_slice s = grant s default_wait_slice

pub nfc_field_poll_slice : Deadline → Option SliceGrant × Deadline
unfolding grant
nfc_field_poll_slice s = grant s nfc_poll_slice

pub hop_slice : Deadline → ℕ → Option SliceGrant × Deadline
unfolding grant
hop_slice s requested = grant s requested
