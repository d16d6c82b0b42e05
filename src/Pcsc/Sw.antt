-- ===== src/Pcsc/Sw.antt =====
-- crates/fidoh-transport-pcsc/src/sw.rs: ISO 7816-4 status words.
pub mod Pairs
use fidoh.Base.{ℕ, ◌==◌, if◌then◌else◌, Bool, true, false, ◌&&◌, List, [], ◌∷◌, Option, none, some}

pub data StatusWord : Type 0 where
  success : StatusWord
  more_data wrong_le : ℕ → StatusWord
  not_found conditions_not_satisfied file_invalidated : StatusWord
  not_allowed not_allowed_6d00 status_update : StatusWord
  warn : ℕ → StatusWord
  other : ℕ → ℕ → StatusWord

-- `StatusWord::from_pair`, its arms in the order of the source.
unfoldable pub from_pair : ℕ → ℕ → StatusWord
from_pair sw1 sw2 =
    if sw1 == 0x90 && sw2 == 0x00
    then success
    else if sw1 == 0x61
    then more_data sw2
    else if sw1 == 0x6c
    then wrong_le sw2
    else if sw1 == 0x6a && sw2 == 0x82
    then not_found
    else if sw1 == 0x69 && sw2 == 0x85
    then conditions_not_satisfied
    else if sw1 == 0x62 && sw2 == 0x83
    then file_invalidated
    else if sw1 == 0x69 && sw2 == 0x86
    then not_allowed
    else if sw1 == 0x6d && sw2 == 0x00
    then not_allowed_6d00
    else if sw1 == 0x91 && sw2 == 0x00
    then status_update
    else if sw1 == 0x62
    then warn sw2
    else other sw1 sw2

-- `StatusWord::to_pair`.
pub to_pair : StatusWord → ℕ × ℕ
to_pair success = (0x90, 0x00)
to_pair (more_data n) = (0x61, n)
to_pair (wrong_le n) = (0x6c, n)
to_pair not_found = (0x6a, 0x82)
to_pair conditions_not_satisfied = (0x69, 0x85)
to_pair file_invalidated = (0x62, 0x83)
to_pair not_allowed = (0x69, 0x86)
to_pair not_allowed_6d00 = (0x6d, 0x00)
to_pair status_update = (0x91, 0x00)
to_pair (warn n) = (0x62, n)
to_pair (other sw1 sw2) = (sw1, sw2)

-- `StatusWord::from_slice`: the last two bytes, if there are two.
pub from_slice : List ℕ → Option StatusWord
from_slice [] = none
from_slice (a ∷ []) = none
from_slice (a ∷ b ∷ []) = some (from_pair a b)
from_slice (a ∷ b ∷ c ∷ rest) = from_slice (b ∷ c ∷ rest)

-- `StatusWord::is_ok`.
unfoldable pub is_ok : StatusWord → Bool
is_ok success = true
is_ok _ = false

-- `StatusWord::is_select_skip`.
unfoldable pub is_select_skip : StatusWord → Bool
is_select_skip not_found = true
is_select_skip conditions_not_satisfied = true
is_select_skip file_invalidated = true
is_select_skip _ = false
