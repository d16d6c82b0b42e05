-- ===== src/Hid/Examples.antt =====
-- Concrete runs of the HID transport.
use fidoh.Base.{
  ℕ, ◌+◌, ◌^◌, ◌%◌, ◌≡◌, ◌≢◌, refl, arith, List, [], ◌∷◌, ◌++◌, map, replicate, to_be_bytes, none,
  some, ok, Outcome, ◌≤◌, inl,
}
use fidoh.Core.Time.{Phase}
use fidoh.Hid.Packet.{encode_message, init_packet, cont_packet, cont_packets}
use fidoh.Hid.Packet.Count.{Encoded, encode_message_count}
use fidoh.Hid.Assembler.{new, step, steps, continue, resolved, done, frame_of, TransactionOutcome}
use fidoh.Hid.Assembler.Reports.{foreign_ignored}
use fidoh.Hid.Assembler.Invariant.{steps-FoldSound, FoldSound}
use fidoh.Hid.Assembler.RoundTrip.{Weave, last, foreign, keepalive, transaction_round_trip}
use fidoh.Hid.Io.Endless.{receive_loop-foreign}
use fidoh.Hid.Io.{receive_loop, Io, ReadEvent, report, FsmError, returned}
use fidoh.Hid.Io.Writing.{calm}
use fidoh.Hid.Fsm.{Fsm, transaction, allocate, init_reply}
use fidoh.Hid.Fsm.Transactions.{transaction_ends, transaction_delivers}
use fidoh.Hid.Fsm.Allocation.{Allocated, allocate-Allocated}
use fidoh.Hid.Fsm.Handshake.{allocate_delivers, init_reply_misreads, init_answer, device_info}

abbrev busy_byte : ℕ
busy_byte = 0x06

encode_message_count_example : Encoded (replicate 100 7) (encode_message 5 0x10 (replicate 100 7))
encode_message_count_example = encode_message_count 5 0x10 (replicate 100 7)

abbrev stranger : List ℕ
stranger = replicate 64 0

foreign_ignored_example : step (new 5) 0x10 stranger ≡ ok (continue (new 5) [])
foreign_ignored_example = foreign_ignored (new 5) 0x10 stranger refl (omega arith)

abbrev reply_report : List ℕ
reply_report = init_packet 5 0x10 (0 ∷ 9 ∷ [])

encoded_reply : encode_message 5 0x10 (0 ∷ 9 ∷ []) ≡ ok (reply_report ∷ [])
unfolding encode_message cont_packets
encoded_reply = refl

abbrev traffic : List (List ℕ)
traffic = stranger ∷ init_packet 5 0x3b (2 ∷ []) ∷ reply_report ∷ []

woven : Weave 5 (reply_report ∷ []) traffic (2 ∷ [])
woven = foreign stranger refl (omega arith) (keepalive 2 (last reply_report []))

transaction_round_trip_example :
    steps traffic 0x10 (new 5) [] ≡ resolved (done (frame_of 0x10 (0 ∷ 9 ∷ []))) (2 ∷ [])
transaction_round_trip_example =
    transaction_round_trip 5 0x10 (0 ∷ 9 ∷ []) encoded_reply (omega arith) (omega arith)
      (omega arith) (omega arith) woven

steps-FoldSound_example : FoldSound (steps (stranger ∷ []) 0x10 (new 5) [])
steps-FoldSound_example = steps-FoldSound (stranger ∷ []) 0x10 (new 5) [] (refl, tt) (inl refl)

abbrev quiet : List ReadEvent → Io
quiet events = record {
  events = events;
  faults = [];
  written = [];
  deadline = record { remaining = 1_000_000_000 };
  surfaced = [];
}

-- No budget is left.
abbrev spent_io : List ReadEvent → Io
spent_io events = record (quiet events) { deadline = record { remaining = 0 } }

abbrev open_channel : Fsm
open_channel = record {
  io = quiet (map report traffic ++ []);
  cid = some 5;
  info = none;
  counter = 1;
}

encoded_request : encode_message 5 0x10 (4 ∷ []) ≡ ok (init_packet 5 0x10 (4 ∷ []) ∷ [])
unfolding encode_message cont_packets
encoded_request = refl

transaction_ends_example :
    (r : Outcome FsmError TransactionOutcome) × (s' : Fsm) × (transaction 0x10
        (4 ∷ [])
        Phase.command_exchange
        open_channel
      ≡ returned r s')
    × (s'.io.deadline.remaining ≤ open_channel.io.deadline.remaining)
transaction_ends_example = transaction_ends 0x10 (4 ∷ []) Phase.command_exchange open_channel refl

receive_loop-foreign_example :
    receive_loop 5 0x10 Phase.command_exchange (record (spent_io []) {
      events = map report (replicate 3 stranger) ++ (report reply_report ∷ []);
    })
    ≡ receive_loop 5 0x10 Phase.command_exchange
        (record (spent_io []) { events = report reply_report ∷ [] })
receive_loop-foreign_example =
    receive_loop-foreign (replicate 3 stranger) 5 0x10 Phase.command_exchange
      (report reply_report ∷ []) (spent_io [])
      ((refl, omega arith), ((refl, omega arith), ((refl, omega arith), tt)))

transaction_delivers_example :
    (s' : Fsm) × (transaction 0x10 (4 ∷ []) Phase.command_exchange open_channel
      ≡ returned (ok (done (frame_of 0x10 (0 ∷ 9 ∷ [])))) s')
    × (s'.io.written ≡ open_channel.io.written ++ (init_packet 5 0x10 (4 ∷ []) ∷ []))
    × (s'.io.surfaced ≡ open_channel.io.surfaced ++ (2 ∷ []))
    × (s'.io.deadline ≡ open_channel.io.deadline)
transaction_delivers_example =
    transaction_delivers 5 0x10 (4 ∷ []) (0 ∷ 9 ∷ []) Phase.command_exchange open_channel [] refl
      (omega arith) (omega arith) (omega arith) (omega arith) refl encoded_request encoded_reply
      woven refl

abbrev unopened : Fsm
unopened = record { io = quiet []; cid = none; info = none; counter = 0 }

allocate-Allocated_example : Allocated unopened (allocate unopened)
allocate-Allocated_example = allocate-Allocated unopened

allocate_delivers_example :
    allocate (record unopened {
      io = calm [] (record (unopened.io) {
        events =
            map report (stranger ∷ [])
            ++ report (init_answer 0xffff_ffff 0 (device_info 5 2 1 0 3 4)) ∷ [];
      });
    })
    ≡ returned (ok (device_info 5 2 1 0 3 4)) (record {
      io =
          calm
            ([] ++ init_packet 0xffff_ffff 0x06 (to_be_bytes 8 ((0 + 1) % 2 ^ 64)) ∷ [])
            (record (unopened.io) { events = [] });
      cid = some 5;
      info = some (device_info 5 2 1 0 3 4);
      counter = (0 + 1) % 2 ^ 64;
    })
allocate_delivers_example =
    allocate_delivers unopened 5 2 1 0 3 4 (stranger ∷ []) [] [] (omega arith) (omega arith)
      ((refl, omega arith), tt)

init_reply_misreads_example :
    (init_reply 5 (replicate 8 0) (cont_packet 5 0x06 (1 ∷ [])) ≢ none)
    × (step (new 5) 0x06 (cont_packet 5 0x06 (1 ∷ [])) ≡ ok (continue (new 5) []))
init_reply_misreads_example = init_reply_misreads 5 (replicate 8 0) (1 ∷ []) (omega arith)
