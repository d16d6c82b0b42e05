-- ===== src/Pcsc/Sw/Pairs.antt =====
-- The status words of sw.rs as a reading of two bytes that loses nothing.
use fidoh.Base.{ℕ, ◌≡◌, ◌↔◌, ◌⊎◌, true, arith, List, [], ◌∷◌, ◌++◌, some, refl}
use fidoh.Pcsc.Sw.{from_pair, to_pair, is_ok, is_select_skip, from_slice}

-- Every pair of bytes is read back from its typed word; the word is a success exactly at 9000, and
-- one of the skips of a SELECT exactly at 6A82, 6985 and 6283.
pub status_word_total :
    (a b : ℕ)
    → (to_pair (from_pair a b) ≡ (a, b))
      × ((is_ok (from_pair a b) ≡ true) ↔ ((a ≡ 0x90) × (b ≡ 0x00)))
      × ((is_select_skip (from_pair a b) ≡ true)
          ↔ (((a ≡ 0x6a) × (b ≡ 0x82)) ⊎ (((a ≡ 0x69) × (b ≡ 0x85)) ⊎ ((a ≡ 0x62) × (b ≡ 0x83)))))
unfolding from_pair to_pair is_ok is_select_skip
status_word_total a b = ground arith

-- The word of a response is that of its last two bytes.
pub from_slice-append :
    (xs : List ℕ) (a b : ℕ) → from_slice (xs ++ a ∷ b ∷ []) ≡ some (from_pair a b)
unfolding from_slice
from_slice-append [] a b = refl
from_slice-append (x ∷ []) a b = refl
from_slice-append (x ∷ y ∷ []) a b = refl
from_slice-append (x ∷ y ∷ z ∷ xs) a b = from_slice-append (y ∷ z ∷ xs) a b
