-- ===== src/Pcsc/Apdu/Chaining.antt =====
-- The blocks of `chain_short` of apdu.rs, against a description of a chain.
use fidoh.Base.{
  ℕ, zero, suc, ◌-◌, ◌≤◌, ◌<◌, min, ◌≡◌, refl, sym, arith, Bool, true, false, if◌then◌else◌, List,
  [], ◌∷◌, ◌++◌, map, length, take, drop, length-take, length-drop, take-append-drop, append-nil,
  some,
}
use fidoh.Pcsc.Apdu.{chain_loop, chain_blocks, chain_short, is_empty}

-- A block: its class byte, its data, and whether it is the last.
abbrev pub Block : Type 0
Block = ℕ × List ℕ × Bool

abbrev pub block : ℕ → List ℕ → Bool → Block
block cla chunk last = (cla, chunk, last)

-- The blocks that carry `body`: full ones of class 0x90, then the rest under the command's class.
pub data IsChain (cla size : ℕ) : List Block → List ℕ → Type 0 where
  last : (chunk : List ℕ) → length chunk ≤ size → IsChain cla size ((cla, chunk, true) ∷ []) chunk
  more :
      (chunk : List ℕ) {blocks : List Block} (rest body : List ℕ)
      → length chunk ≡ size
      → 0 < length rest
      → body ≡ chunk ++ rest
      → IsChain cla size blocks rest
      → IsChain cla size ((0x90, chunk, false) ∷ blocks) body

chain_loop-IsChain :
    (fuel cla size : ℕ) (b : ℕ) (bs : List ℕ)
    → 0 < size
    → length (b ∷ bs) ≤ fuel
    → IsChain cla size (chain_loop fuel cla size block (b ∷ bs)) (b ∷ bs)
unfolding chain_loop
chain_loop-IsChain zero cla size b bs h f = absurd (omega arith)
chain_loop-IsChain (suc fuel) cla size b bs h f =
    let end : ℕ = min (length (b ∷ bs)) size in
    go (take end (b ∷ bs)) (drop end (b ∷ bs)) (take-append-drop end (b ∷ bs))
      (length-take end (b ∷ bs)) (length-drop end (b ∷ bs))
      (λ c cs e. chain_loop-IsChain fuel cla size c cs h e)
  where
    go :
        (chunk tail : List ℕ)
        → chunk ++ tail ≡ b ∷ bs
        → length chunk ≡ min (min (length (b ∷ bs)) size) (length (b ∷ bs))
        → length tail ≡ length (b ∷ bs) - min (length (b ∷ bs)) size
        → ((c : ℕ) (cs : List ℕ)
            → length (c ∷ cs) ≤ fuel
            → IsChain cla size (chain_loop fuel cla size block (c ∷ cs)) (c ∷ cs))
        → IsChain cla size
            (block (if is_empty tail then cla else 0x90) chunk (is_empty tail)
              ∷ chain_loop fuel cla size block tail)
            (b ∷ bs)
    go chunk [] whole n m ih = rw (← whole) (rw append-nil (last chunk (omega arith)))
    go chunk (c ∷ cs) whole n m ih =
        more chunk (c ∷ cs) (b ∷ bs) (omega arith) (omega arith) (sym whole) (ih c cs (omega arith))

pub chain_blocks-IsChain :
    (cla size : ℕ) (body : List ℕ)
    → 0 < size
    → IsChain cla size (chain_blocks cla body size block) body
unfolding chain_blocks
chain_blocks-IsChain cla size [] h = last [] (omega arith)
chain_blocks-IsChain cla size (b ∷ bs) h =
    chain_loop-IsChain (length (b ∷ bs)) cla size b bs h (omega arith)

-- For every chunk size from 1 to 255, chain_short meets its assertion and sends the data as a chain: full
-- blocks of class 0x90, then a last block under the class of the command.
pub chain_short-IsChain :
    (cla size : ℕ) (body : List ℕ)
    → 0 < size
    → size ≤ 255
    → (blocks : List Block) × (chain_short cla body size block ≡ some blocks)
      × IsChain cla size blocks body
unfolding chain_short
chain_short-IsChain cla size body h l =
    (chain_blocks cla body size block, ground arith, chain_blocks-IsChain cla size body h)

chain_loop-map {ℓ} :
    {A : Type ℓ} (fuel cla size : ℕ) (build : ℕ → List ℕ → Bool → A) (body : List ℕ)
    → chain_loop fuel cla size build body
      ≡ map (λ (p : Block). build (p.0) (p.1) (p.2)) (chain_loop fuel cla size block body)
unfolding chain_loop
chain_loop-map zero cla size build [] = refl
chain_loop-map (suc fuel) cla size build [] = refl
chain_loop-map zero cla size build (b ∷ bs) = refl
chain_loop-map (suc fuel) cla size build (b ∷ bs) =
    rw (chain_loop-map fuel cla size build (drop (min (length (b ∷ bs)) size) (b ∷ bs))) refl

-- The caller's `build` is applied to each block.
pub chain_blocks-map {ℓ} :
    {A : Type ℓ} (cla size : ℕ) (build : ℕ → List ℕ → Bool → A) (body : List ℕ)
    → chain_blocks cla body size build
      ≡ map (λ (p : Block). build (p.0) (p.1) (p.2)) (chain_blocks cla body size block)
unfolding chain_blocks
chain_blocks-map cla size build [] = refl
chain_blocks-map cla size build (b ∷ bs) = chain_loop-map (length (b ∷ bs)) cla size build (b ∷ bs)
