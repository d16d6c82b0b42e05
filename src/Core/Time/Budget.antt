-- ===== src/Core/Time/Budget.antt =====
-- What the operations of `Deadline` do to the budget.
use fidoh.Base.{ℕ, ◌+◌, ◌-◌, ◌≤◌, ◌<◌, ◌^◌, min, ◌≡◌, ◌⊎◌, List, [], ◌∷◌, Option, none, some, arith}
use fidoh.Core.Time.{
  Deadline, SliceGrant, left, exhausted, Phase, nanos, new, consume, consume_slice, grant,
  ctaphid_read_slice, nfc_field_poll_slice, default_wait_slice, nfc_poll_slice, granted_of,
}

-- The state after a slice, and the time that it granted.
abbrev pub granted_time : Option ℕ → ℕ
granted_time none = 0
granted_time (some g) = g

-- A slice is paid from the budget, whatever was requested.
pub consume_slice_pays :
    (d : ℕ) (s : Deadline)
    → granted_time (consume_slice d s).0 + (consume_slice d s).1.remaining ≡ s.remaining
unfolding consume_slice nanos
consume_slice_pays d s = ground arith

pub consume_slice-none : (d : ℕ) (s : Deadline) → (consume_slice d s).0 ≡ none → s.remaining ≡ 0
unfolding consume_slice
consume_slice-none d s h = ground arith

pub consume_slice_progress :
    (d : ℕ) (s : Deadline) {g : ℕ} → 0 < d → (consume_slice d s).0 ≡ some g → 0 < g
unfolding consume_slice nanos
consume_slice_progress d s p h = ground arith

-- The state after a list of requests, and the time granted by all of them.
abbrev pub after_slices : List ℕ → Deadline → Deadline
after_slices [] s = s
after_slices (d ∷ ds) s = after_slices ds (consume_slice d s).1

abbrev pub total_granted : List ℕ → Deadline → ℕ
total_granted [] s = 0
total_granted (d ∷ ds) s =
    granted_time (consume_slice d s).0 + total_granted ds (consume_slice d s).1

slices_pay :
    (ds : List ℕ) (s : Deadline) → total_granted ds s + (after_slices ds s).remaining ≡ s.remaining
slices_pay [] s = omega arith
slices_pay (d ∷ ds) s = omega (arith, consume_slice_pays d s, slices_pay ds (consume_slice d s).1)

-- However a budget is cut into slices, the times granted and what remains add up to it, where a
-- budget above the largest u64 counts as that.
pub slices_pay_budget :
    (total : ℕ) (ds : List ℕ)
    → total_granted ds (new total) + (after_slices ds (new total)).remaining
      ≡ min total (2 ^ 64 - 1)
unfolding new nanos
slices_pay_budget total ds = ground (arith, slices_pay ds (new total))

-- A spend of `d`, a number below 2^64, either leaves exactly `d` less, or finds less than `d`,
-- leaves nothing and is the timeout of the command exchange.
pub consume_exact :
    (d : ℕ) (s : Deadline)
    → d < 2 ^ 64
    → ((d ≤ s.remaining)
        × (consume d s ≡ (left (s.remaining - d), record { remaining = s.remaining - d })))
      ⊎ ((s.remaining < d)
          × (consume d s ≡ (exhausted Phase.command_exchange, record { remaining = 0 })))
unfolding consume nanos
consume_exact d s h = ground arith

-- What a slice of at most `bound` must be.
abbrev pub FitsBudget : ℕ → Deadline → Option SliceGrant × Deadline → Type 0
FitsBudget bound s (none, s') = (s.remaining ≡ 0) × (s'.remaining ≡ 0)
FitsBudget bound s (some g, s') =
    (0 < g.granted)
    × (g.granted ≤ bound)
    × (g.granted + g.remaining_after ≡ s.remaining)
    × (s'.remaining ≡ g.remaining_after)

-- For a positive bound, a granted slice is positive, within the bound and within the budget, and
-- reports what is left; none is granted only when nothing is left.
pub grant_fits : (bound : ℕ) (s : Deadline) → 0 < bound → FitsBudget bound s (grant s bound)
unfolding grant granted_of consume_slice nanos
grant_fits bound s h = ground arith

-- The HID read slice is at most 30 s and the NFC poll slice at most 1 s; each is positive, at most
-- the budget and paid from it, and is refused only when nothing is left.
pub slices_fit :
    (s : Deadline)
    → FitsBudget 30_000_000_000 s (ctaphid_read_slice s)
      × FitsBudget 1_000_000_000 s (nfc_field_poll_slice s)
unfolding ctaphid_read_slice nfc_field_poll_slice
slices_fit s =
    (grant_fits default_wait_slice s (omega arith), grant_fits nfc_poll_slice s (omega arith))
