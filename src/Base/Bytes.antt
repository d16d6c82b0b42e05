-- ===== src/Base/Bytes.antt =====
-- Bytes as numbers below 256: big-endian words and masks on one byte.
use Prim.Native.Nat.{ℕ, zero, suc, ◌+◌, ◌*◌, ◌/◌, ◌%◌, ◌^◌, ◌<◌, bit_and, bit_or}
use mathlib.Core.Path.{◌≡◌, refl, ap, ◌∙◌}
use mathlib.Core.Bool.{Bool, true, false}
use mathlib.Core.List.{List, [], ◌∷◌, foldl}
use mathlib.Core.Logic.{ite}
use native.Mathlib.Decide.{ℕ_discrete}
use native.Mathlib.Omega.{arith}

abbrev pub IsByte : ℕ → Type 0
IsByte b = b < 256

-- `x.to_be_bytes()` of a word of `n` bytes.
abbrev pub to_be_bytes : ℕ → ℕ → List ℕ
to_be_bytes zero x = []
to_be_bytes (suc n) x = (x / 256 ^ n % 256) ∷ to_be_bytes n x

-- `from_be_bytes`.
abbrev pub from_be_bytes : List ℕ → ℕ
from_be_bytes = foldl (λ acc b. acc * 256 + b) 0

module _ (f g : ℕ → ℕ) where
  agree_below : ℕ → Bool
  unfolding ℕ_discrete
  agree_below zero = true
  agree_below (suc n) = ite (ℕ_discrete (f n) (g n)) (agree_below n) false

  agree_below→eq : (n : ℕ) → agree_below n ≡ true → (i : ℕ) → i < n → f i ≡ g i
  unfolding agree_below
  agree_below→eq zero e i h = absurd (omega arith)
  agree_below→eq (suc n) e i h = ground (arith, agree_below→eq n (ground arith) i)

pub bit_and-top : (b : ℕ) → b < 256 → bit_and b 0x80 ≡ b / 128 * 128
unfolding agree_below
bit_and-top = agree_below→eq _ _ 256 refl

pub bit_and-low_seven : (b : ℕ) → b < 256 → bit_and b 0x7f ≡ b % 128
unfolding agree_below
bit_and-low_seven = agree_below→eq _ _ 256 refl

pub bit_or-top : (b : ℕ) → b < 256 → bit_or b 0x80 ≡ b % 128 + 128
unfolding agree_below
bit_or-top = agree_below→eq _ _ 256 refl

pub bit_and-low_five : (b : ℕ) → b < 256 → bit_and b 0x1f ≡ b % 32
unfolding agree_below
bit_and-low_five = agree_below→eq _ _ 256 refl

bit_or-split : (b : ℕ) → b < 256 → bit_or (b / 32 * 32) (b % 32) ≡ b
unfolding agree_below
bit_or-split = agree_below→eq _ _ 256 refl

-- A three-bit field above a five-bit one.
pub bit_or-fields : (hi lo : ℕ) → hi < 8 → lo < 32 → bit_or (hi * 32) lo ≡ hi * 32 + lo
bit_or-fields hi lo h l =
    ap (λ (t : ℕ). bit_or (t * 32) lo) high
    ∙ ap (λ (t : ℕ). bit_or ((hi * 32 + lo) / 32 * 32) t) low
    ∙ bit_or-split (hi * 32 + lo) (omega arith)
  where
    high : hi ≡ (hi * 32 + lo) / 32
    high = omega arith

    low : lo ≡ (hi * 32 + lo) % 32
    low = omega arith
