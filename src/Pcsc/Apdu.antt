-- ===== src/Pcsc/Apdu.antt =====
-- crates/fidoh-transport-pcsc/src/apdu.rs: command APDUs as byte lists.
pub mod Chaining
pub mod Parsing
use fidoh.Base.{
  ℕ, zero, suc, ◌+◌, ◌%◌, ◌^◌, min, ltb, leb, ◌==◌, if◌then◌else◌, Bool, true, false, not, ◌||◌,
  ◌&&◌, Option, none, some, List, [], ◌∷◌, ◌++◌, length, take, drop, to_be_bytes,
}

-- `short_le`: `as u8` keeps the low byte.
unfoldable pub short_le : ℕ → ℕ
short_le le = if le == 0 || le == 256 then 0x00 else le % 256

-- `(x as u16).to_be_bytes()`.
abbrev pub u16_be : ℕ → List ℕ
u16_be x = to_be_bytes 2 (x % 2 ^ 16)

unfoldable pub case1 : ℕ → ℕ → ℕ → ℕ → List ℕ
case1 cla ins p1 p2 = cla ∷ ins ∷ p1 ∷ p2 ∷ []

unfoldable pub case2 : ℕ → ℕ → ℕ → ℕ → ℕ → Bool → List ℕ
unfolding short_le
case2 cla ins p1 p2 le extended =
    cla ∷ ins ∷ p1 ∷ p2 ∷ (if extended then 0x00 ∷ u16_be le else short_le le ∷ [])

unfoldable pub case3 : ℕ → ℕ → ℕ → ℕ → List ℕ → Bool → List ℕ
case3 cla ins p1 p2 body extended =
    cla
    ∷ ins
    ∷ p1
    ∷ p2
    ∷ ((if extended then 0x00 ∷ u16_be (length body) else (length body % 256) ∷ []) ++ body)

unfoldable pub case4 : ℕ → ℕ → ℕ → ℕ → List ℕ → ℕ → Bool → List ℕ
unfolding short_le
case4 cla ins p1 p2 body le extended =
    cla
    ∷ ins
    ∷ p1
    ∷ p2
    ∷ (if extended
        then 0x00 ∷ u16_be (length body) ++ body ++ u16_be le
        else (length body % 256) ∷ body ++ short_le le ∷ [])

unfoldable pub fits_short : ℕ → Bool
fits_short len = leb len 255

unfoldable pub needs_extended : ℕ → ℕ → Bool
needs_extended len expected_le = ltb 255 len || ltb 256 expected_le

is_empty {ℓ} : {A : Type ℓ} → List A → Bool
is_empty [] = true
is_empty (x ∷ xs) = false

-- The loop `while !rest.is_empty()`; each round takes a byte at least if `chunk_size` is positive,
-- so `length rest` rounds are enough fuel.
pub chain_loop {ℓ} : {A : Type ℓ} → ℕ → ℕ → ℕ → (ℕ → List ℕ → Bool → A) → List ℕ → List A
unfolding is_empty
chain_loop fuel cla chunk_size build [] = []
chain_loop zero cla chunk_size build (b ∷ bs) = []
chain_loop (suc fuel) cla chunk_size build (b ∷ bs) =
    let end = min (length (b ∷ bs)) chunk_size in
    let tail = drop end (b ∷ bs) in
    build (if is_empty tail then cla else 0x90) (take end (b ∷ bs)) (is_empty tail)
    ∷ chain_loop fuel cla chunk_size build tail

-- The body of `chain_short` behind its assertion.
pub chain_blocks {ℓ} : {A : Type ℓ} → ℕ → List ℕ → ℕ → (ℕ → List ℕ → Bool → A) → List A
chain_blocks cla [] chunk_size build = build cla [] true ∷ []
chain_blocks cla (b ∷ bs) chunk_size build =
    chain_loop (length (b ∷ bs)) cla chunk_size build (b ∷ bs)

-- `chain_short`, over the block that `build` makes; `none` is the panic of its `debug_assert!`.
unfoldable pub chain_short {ℓ} :
    {A : Type ℓ} → ℕ → List ℕ → ℕ → (ℕ → List ℕ → Bool → A) → Option (List A)
chain_short cla body chunk_size build =
    if leb 1 chunk_size && leb chunk_size 255
    then some (chain_blocks cla body chunk_size build)
    else none
