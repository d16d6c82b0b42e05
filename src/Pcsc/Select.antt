-- ===== src/Pcsc/Select.antt =====
-- crates/fidoh-transport-pcsc/src/select.rs: the SELECT of the FIDO applet and its outcome.
pub mod Outcomes
use fidoh.Base.{
  ℕ, ◌-◌, ltb, if◌then◌else◌, Bool, true, false, List, [], ◌∷◌, length, take, drop, get_or, Option,
  none, some, Outcome, ok, err,
}
use fidoh.Pcsc.Sw.{
  StatusWord, success, more_data, wrong_le, status_update, warn, not_found,
  conditions_not_satisfied, file_invalidated, not_allowed, not_allowed_6d00, other, from_pair,
}
use fidoh.Pcsc.Apdu.{case4}

-- `FIDO_AID`.
abbrev pub fido_aid : List ℕ
fido_aid = 0xa0 ∷ 0x00 ∷ 0x00 ∷ 0x06 ∷ 0x47 ∷ 0x2f ∷ 0x00 ∷ 0x01 ∷ []

-- `select_fido_aid`.
unfoldable pub select_fido_aid : List ℕ
select_fido_aid = case4 0x00 0xa4 0x04 0x00 fido_aid 256 false

pub data SelectOutcome : Type 0 where
  selected : Option (List ℕ) → SelectOutcome
  not_fido condition_skip invalidated_skip : SelectOutcome

-- `SelectOutcome::is_candidate`.
unfoldable pub is_candidate : SelectOutcome → Bool
is_candidate (selected version) = true
is_candidate _ = false

-- `select_error`, by the word and the case that its text is formatted from.
pub data SelectError : Type 0 where
  shorter_than_sw : SelectError
  unexpected_sw : StatusWord → SelectError

version_of : List ℕ → Option (List ℕ)
version_of [] = none
version_of (b ∷ bs) = some (b ∷ bs)

unfoldable pub outcome_of : List ℕ → StatusWord → Outcome SelectError SelectOutcome
unfolding version_of
outcome_of body success = ok (selected (version_of body))
outcome_of body not_found = ok not_fido
outcome_of body conditions_not_satisfied = ok condition_skip
outcome_of body file_invalidated = ok invalidated_skip
outcome_of body word = err (unexpected_sw word)

-- `evaluate_select`.
unfoldable pub evaluate_select : List ℕ → Outcome SelectError SelectOutcome
evaluate_select response =
    let tail = drop (length response - 2) response in
    if ltb (length response) 2
    then err shorter_than_sw
    else outcome_of (take (length response - 2) response)
        (from_pair (get_or tail 0 0) (get_or tail 1 0))
