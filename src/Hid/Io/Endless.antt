-- ===== src/Hid/Io/Endless.antt =====
-- Reports that are ready one behind the other keep the receive loop of fsm.rs from its budget.
use fidoh.Base.{
  ℕ, zero, suc, ◌+◌, ◌≡◌, ◌≢◌, arith, length-append, length-map, refl, List, [], ◌∷◌, ◌++◌,
  append-nil, length, map, All,
}
use fidoh.Core.Time.{Phase}
use fidoh.Hid.Packet.{cid_of}
use fidoh.Hid.Assembler.{Assembler, new}
use fidoh.Hid.Assembler.Reports.{foreign_ignored}
use fidoh.Hid.Io.{ReadEvent, report, Io, receive, receive_loop}
use fidoh.Hid.Io.Waiting.{receive_unrolled}
use fidoh.Hid.Io.Ready.{read_ready}

-- A full report on another channel.
abbrev pub IsForeign : ℕ → List ℕ → Type 0
IsForeign cid r = (length r ≡ 64) × (cid_of r ≢ cid)

receive-foreign :
    (rs : List (List ℕ)) (n fuel cmd : ℕ) (phase : Phase) (a : Assembler) (es : List ReadEvent)
    (io : Io)
    → n ≡ length rs + fuel
    → All (IsForeign a.cid) rs
    → receive n cmd phase a (record io { events = map report rs ++ es })
      ≡ receive fuel cmd phase a (record io { events = es })
receive-foreign [] n fuel cmd phase a es io e h =
    (let same : n ≡ fuel = omega arith in rw same refl)
receive-foreign (r ∷ rs) zero fuel cmd phase a es io e h = absurd (omega arith)
receive-foreign (r ∷ rs) (suc n) fuel cmd phase a es io e ((full, other), h) = rw receive_unrolled (
    rw read_ready (
      rw (foreign_ignored a cmd r full other, append-nil)
        (receive-foreign rs n fuel cmd phase a es io (omega arith) h)))

-- Full reports on other channels that are ready one behind the other, in any number, are read by the
-- receive loop without a look at the budget, even when none is left: it goes on from the same budget as
-- without them.
pub receive_loop-foreign :
    (rs : List (List ℕ)) (cid cmd : ℕ) (phase : Phase) (es : List ReadEvent) (io : Io)
    → All (IsForeign cid) rs
    → receive_loop cid cmd phase (record io { events = map report rs ++ es })
      ≡ receive_loop cid cmd phase (record io { events = es })
unfolding receive_loop
receive_loop-foreign rs cid cmd phase es io h =
    receive-foreign rs _ (suc (length es)) cmd phase (new cid) es io
      (omega (arith, length-append (map report rs) es, length-map rs report)) h
