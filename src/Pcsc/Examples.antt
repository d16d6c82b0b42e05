-- ===== src/Pcsc/Examples.antt =====
-- Concrete runs of the smart card transport.
use fidoh.Base.{
  ℕ, ◌≡◌, ◌↔◌, ◌⊎◌, refl, arith, true, false, List, [], ◌∷◌, ◌++◌, length, replicate, none, some,
  err, ltb,
}
use fidoh.Core.Time.{Phase}
use fidoh.Pcsc.Sw.{from_pair}
use fidoh.Pcsc.Apdu.{chain_short}
use fidoh.Pcsc.Apdu.Chaining.{Block, IsChain, block, chain_short-IsChain}
use fidoh.Pcsc.Apdu.Parsing.{read_case4}
use fidoh.Pcsc.Framing.{framed, framed_chained, new, command_frame}
use fidoh.Pcsc.Framing.Frames.{framed-reads, framed_chained-reads, read_chain}
use fidoh.Pcsc.Framing.Hops.{
  drive, IsOver, finished, pending, held, working, all_bytes, exchange_ends, exchange_collects,
  retry_repeats_command,
}
use fidoh.Pcsc.Select.{evaluate_select, unexpected_sw}
use fidoh.Pcsc.Select.Outcomes.{select_decides, candidacy}

abbrev sw1 : ℕ
sw1 = 0x6a

abbrev sw2 : ℕ
sw2 = 0x82

chain_short-IsChain_example :
    (blocks : List Block) × (chain_short 0x80 (1 ∷ 2 ∷ 3 ∷ 4 ∷ 5 ∷ []) 2 block ≡ some blocks)
    × IsChain 0x80 2 blocks (1 ∷ 2 ∷ 3 ∷ 4 ∷ 5 ∷ [])
chain_short-IsChain_example =
    chain_short-IsChain 0x80 2 (1 ∷ 2 ∷ 3 ∷ 4 ∷ 5 ∷ []) (omega arith) (omega arith)

framed-reads_example :
    read_case4 (framed 0x04 (1 ∷ []))
    ≡ some (record {
      cla = 0x80;
      ins = 0x10;
      p1 = 0x80;
      p2 = 0x00;
      body = 0x04 ∷ 1 ∷ [];
      expected = 256;
    })
framed-reads_example = framed-reads 0x04 (1 ∷ []) (omega arith)

framed_chained-reads_example :
    (frames : List (List ℕ)) × (framed_chained 0x01 (replicate 300 7) ≡ some frames)
    × (read_chain frames
        ≡ some (record {
          cla = 0x80;
          ins = 0x10;
          p1 = 0x80;
          p2 = 0x00;
          body = 0x01 ∷ replicate 300 7;
          expected = 256;
        }))
framed_chained-reads_example = framed_chained-reads 0x01 (replicate 300 7)

abbrev polls : List (List ℕ)
polls = replicate 66 (0x91 ∷ 0x00 ∷ [])

exchange_ends_example : IsOver (drive polls (framed 0x04 []) (new 0x04 [] Phase.command_exchange))
exchange_ends_example =
    exchange_ends polls (framed 0x04 []) 0x04 [] Phase.command_exchange (omega arith)

exchange_collects_example :
    drive
      (all_bytes (working [] ∷ held (0x00 ∷ 1 ∷ []) 1 ∷ []) (2 ∷ []))
      (framed 0x04 [])
      (new 0x04 [] Phase.command_exchange)
    ≡ finished (record { status = 0x00; body = 1 ∷ 2 ∷ [] })
exchange_collects_example =
    exchange_collects (working [] ∷ held (0x00 ∷ 1 ∷ []) 1 ∷ []) (2 ∷ []) (framed 0x04 []) 0x04 []
      Phase.command_exchange 0x00 (1 ∷ 2 ∷ []) (omega arith) refl

retry_repeats_command_example :
    (drive
        ((0x00 ∷ (1 ∷ []) ++ 0x61 ∷ 9 ∷ []) ∷ (0x6c ∷ 5 ∷ []) ∷ [])
        (framed 0x04 [])
        (new 0x04 [] Phase.command_exchange)
      ≡ pending
          (command_frame 0x04 [] 5 (ltb 255 (length {A = ℕ} (0x04 ∷ []))))
          (record (new 0x04 [] Phase.command_exchange) {
            collected = 0x00 ∷ 1 ∷ [];
            le_retried = true;
            hops_left = 63;
          }))
    × (drive
          ((0x00 ∷ (1 ∷ []) ++ 0x61 ∷ 9 ∷ [])
            ∷ (0x6c ∷ 5 ∷ [])
            ∷ (0x00 ∷ ((1 ∷ []) ++ (2 ∷ []) ++ 0x90 ∷ 0x00 ∷ []))
            ∷ [])
          (framed 0x04 [])
          (new 0x04 [] Phase.command_exchange)
        ≡ finished (record { status = 0x00; body = (1 ∷ []) ++ (0x00 ∷ ((1 ∷ []) ++ (2 ∷ []))) }))
retry_repeats_command_example =
    retry_repeats_command (1 ∷ []) 0x00 (2 ∷ []) 9 5 (framed 0x04 []) 0x04 [] Phase.command_exchange

select_decides_example :
    ((candidacy (evaluate_select ((1 ∷ []) ++ sw1 ∷ sw2 ∷ [])) ≡ some true)
      ↔ ((sw1 ≡ 0x90) × (sw2 ≡ 0x00)))
    × ((candidacy (evaluate_select ((1 ∷ []) ++ sw1 ∷ sw2 ∷ [])) ≡ some false) ↔ (
        ((sw1 ≡ 0x6a) × (sw2 ≡ 0x82))
        ⊎ (((sw1 ≡ 0x69) × (sw2 ≡ 0x85)) ⊎ ((sw1 ≡ 0x62) × (sw2 ≡ 0x83)))))
    × ((candidacy (evaluate_select ((1 ∷ []) ++ sw1 ∷ sw2 ∷ [])) ≡ none)
        → evaluate_select ((1 ∷ []) ++ sw1 ∷ sw2 ∷ []) ≡ err (unexpected_sw (from_pair sw1 sw2)))
select_decides_example = select_decides (1 ∷ []) sw1 sw2
