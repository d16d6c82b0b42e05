-- ===== src/Pcsc/Select/Outcomes.antt =====
-- Which responses to the SELECT of select.rs make a reader a candidate.
use fidoh.Base.{
  ℕ, ◌-◌, ltb, ◌≡◌, ◌↔◌, ◌⊎◌, refl, arith, Bool, true, false, List, [], ◌∷◌, ◌++◌, length, take,
  drop, Option, none, some, Outcome, ok, err, length-append, take-append_front, drop-append_front,
  ◌+◌,
}
use fidoh.Pcsc.Sw.{StatusWord, from_pair, is_ok, is_select_skip}
use fidoh.Pcsc.Select.{
  SelectOutcome, is_candidate, SelectError, unexpected_sw, outcome_of, evaluate_select,
  select_fido_aid, fido_aid,
}
use fidoh.Pcsc.Sw.Pairs.{status_word_total}
use fidoh.Pcsc.Apdu.Parsing.{read_case4, read_case4-short}

evaluate_select-append :
    (body : List ℕ) (a b : ℕ)
    → evaluate_select (body ++ a ∷ b ∷ []) ≡ outcome_of body (from_pair a b)
unfolding evaluate_select
evaluate_select-append body a b =
    let n : length (body ++ a ∷ b ∷ []) ≡ length body + 2 = length-append body (a ∷ b ∷ []) in
    let front : take (length (body ++ a ∷ b ∷ []) - 2) (body ++ a ∷ b ∷ []) ≡ body =
      take-append_front body (a ∷ b ∷ []) _ (omega (arith, n)) in
    let back : drop (length (body ++ a ∷ b ∷ []) - 2) (body ++ a ∷ b ∷ []) ≡ a ∷ b ∷ [] =
      drop-append_front body (a ∷ b ∷ []) _ (omega (arith, n)) in
    let long : ltb (length (body ++ a ∷ b ∷ [])) 2 ≡ false = ground (arith, n) in
    rw (front, back, long) refl

-- Whether the reader is taken, skipped, or in error.
abbrev pub candidacy : Outcome SelectError SelectOutcome → Option Bool
candidacy (ok outcome) = some (is_candidate outcome)
candidacy (err e) = none

outcome_of-candidacy :
    (body : List ℕ) (w : StatusWord)
    → ((candidacy (outcome_of body w) ≡ some true) ↔ (is_ok w ≡ true))
      × ((candidacy (outcome_of body w) ≡ some false) ↔ (is_select_skip w ≡ true))
      × ((candidacy (outcome_of body w) ≡ none) → outcome_of body w ≡ err (unexpected_sw w))
unfolding outcome_of is_ok is_select_skip is_candidate
outcome_of-candidacy body w = ground arith

-- A response of at least two bytes makes the reader a candidate exactly when it ends in 9000, and
-- skips it exactly when it ends in 6A82, 6985 or 6283; any other is the error that names its word.
pub select_decides :
    (body : List ℕ) (a b : ℕ)
    → ((candidacy (evaluate_select (body ++ a ∷ b ∷ [])) ≡ some true) ↔ ((a ≡ 0x90) × (b ≡ 0x00)))
      × ((candidacy (evaluate_select (body ++ a ∷ b ∷ [])) ≡ some false)
          ↔ (((a ≡ 0x6a) × (b ≡ 0x82)) ⊎ (((a ≡ 0x69) × (b ≡ 0x85)) ⊎ ((a ≡ 0x62) × (b ≡ 0x83)))))
      × ((candidacy (evaluate_select (body ++ a ∷ b ∷ [])) ≡ none)
          → evaluate_select (body ++ a ∷ b ∷ []) ≡ err (unexpected_sw (from_pair a b)))
select_decides body a b =
    rw (evaluate_select-append body a b)
      (ground (arith, outcome_of-candidacy body (from_pair a b), status_word_total a b))

-- The SELECT is a short case 4 APDU whose data is the FIDO applet's identifier.
pub select-reads :
    read_case4 select_fido_aid
    ≡ some
        (record { cla = 0x00; ins = 0xa4; p1 = 0x04; p2 = 0x00; body = fido_aid; expected = 256 })
unfolding select_fido_aid
select-reads =
    read_case4-short 0x00 0xa4 0x04 0x00 256 fido_aid (omega arith) (omega arith) (omega arith)
      (omega arith)
