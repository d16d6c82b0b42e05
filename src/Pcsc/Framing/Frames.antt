-- ===== src/Pcsc/Framing/Frames.antt =====
-- The command frames of framing.rs, as a card takes them apart.
use fidoh.Base.{
  ℕ, ◌+◌, ◌<◌, ◌≡◌, refl, arith, true, false, if◌then◌else◌, List, [], ◌∷◌, ◌++◌, map, length, ltb,
  Option, none, some, Bool-cases, inl, inr, ◌==◌, ◌&&◌,
}
use mathlib.Core.Option
use fidoh.Pcsc.Apdu.{case3, chain_blocks, chain_short}
use fidoh.Pcsc.Apdu.Parsing.{Command, read_case4, read_case4-short, read_case4-extended}
use fidoh.Pcsc.Apdu.Chaining.{Block, IsChain, last, more, chain_blocks-IsChain, chain_blocks-map}
use fidoh.Pcsc.Framing.{framed, command_frame, framed_chained, chained_block}

-- A command of up to 65534 payload bytes is one APDU, short or extended by its length, from which
-- the card reads the NFCCTAP_MSG header, the command byte with the payload, and 256 for Le.
pub framed-reads :
    (command : ℕ) (payload : List ℕ)
    → length payload < 65535
    → read_case4 (framed command payload)
      ≡ some (record {
        cla = 0x80;
        ins = 0x10;
        p1 = 0x80;
        p2 = 0x00;
        body = command ∷ payload;
        expected = 256;
      })
unfolding framed command_frame
framed-reads command payload h = elim (Bool-cases (ltb 255 (length payload + 1))) [
  | inl long ↦
      rw (long, framed)
        (read_case4-extended 0x80 0x10 0x80 0x00 256 (command ∷ payload) (omega arith) (omega arith)
          (omega arith))
  | inr short ↦
      rw (short, framed)
        (read_case4-short 0x80 0x10 0x80 0x00 256 (command ∷ payload) (omega arith) (ground arith)
          (omega arith) (omega arith))
]

-- What a card makes of chained blocks: the data of the blocks of class 0x90, each a short case 3
-- APDU with its exact length, then the last block as a case 4 one.
pub read_chain : List (List ℕ) → Option Command
read_chain [] = none
read_chain (frame ∷ []) = read_case4 frame
read_chain ((cla ∷ ins ∷ p1 ∷ p2 ∷ n ∷ chunk) ∷ next ∷ rest) =
    if cla == 0x90 && n == length chunk
    then Option.map (λ (c : Command). record c { body = chunk ++ c.body })
        (read_chain (next ∷ rest))
    else none
read_chain (short ∷ next ∷ rest) = none

-- A block in front of a chain that is read.
read_chain-block :
    (chunk frame : List ℕ) (frames : List (List ℕ)) (c : Command)
    → length chunk ≡ 255
    → read_chain (frame ∷ frames) ≡ some c
    → read_chain (chained_block 0x90 chunk false ∷ frame ∷ frames)
      ≡ some (record c { body = chunk ++ c.body })
unfolding read_chain chained_block case3
read_chain-block chunk frame frames c full h = ground arith

chain_reads :
    {blocks : List Block} {body : List ℕ}
    → IsChain 0x80 255 blocks body
    → 0 < length body
    → read_chain (map (λ (p : Block). chained_block (p.0) (p.1) (p.2)) blocks)
      ≡ some (record { cla = 0x80; ins = 0x10; p1 = 0x80; p2 = 0x00; body = body; expected = 256 })
unfolding read_chain chained_block case3
chain_reads (last chunk fits) some_data =
    read_case4-short 0x80 0x10 0x80 0x00 256 chunk some_data fits (omega arith) (omega arith)
chain_reads (more chunk rest body full left whole (last b fits)) some_data =
    rw whole (
      read_chain-block chunk (chained_block 0x80 b true) [] _ full (chain_reads (last b fits) left))
chain_reads
      (more chunk rest body full left whole (more b {blocks = blocks} r y full' left' whole' c))
      some_data =
    rw whole (
      read_chain-block chunk (chained_block 0x90 b false)
        (map (λ (p : Block). chained_block (p.0) (p.1) (p.2)) blocks) _ full
        (chain_reads (more b r y full' left' whole' c) left))

-- A command of any length is sent in chained blocks, from which the card reads it back whole and in
-- order.
pub framed_chained-reads :
    (command : ℕ) (payload : List ℕ)
    → (frames : List (List ℕ)) × (framed_chained command payload ≡ some frames)
      × (read_chain frames
          ≡ some (record {
            cla = 0x80;
            ins = 0x10;
            p1 = 0x80;
            p2 = 0x00;
            body = command ∷ payload;
            expected = 256;
          }))
unfolding framed_chained chain_short
framed_chained-reads command payload = (
  chain_blocks 0x80 (command ∷ payload) 255 chained_block,
  refl,
  rw (chain_blocks-map 0x80 255 chained_block (command ∷ payload))
      (chain_reads (chain_blocks-IsChain 0x80 255 (command ∷ payload) (omega arith)) (omega arith)),
)
