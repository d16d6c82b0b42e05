-- ===== src/Hid/Packet/Count.antt =====
-- How many packets `encode_message` of packet.rs writes, and which messages it refuses.
use fidoh.Base.{
  ℕ, zero, suc, ◌+◌, ◌/◌, ◌%◌, ◌≤◌, ◌<◌, min, ◌≡◌, arith, List, [], ◌∷◌, length, drop, length-drop,
  Outcome, ok, err,
}
use fidoh.Hid.Errors.{FramingError, message_too_long}
use fidoh.Hid.Packet.{cont_packets, encode_message, packet_count}

pub length-cont_packets :
    (fuel cid seq : ℕ) (rest : List ℕ)
    → length rest ≤ fuel
    → length (cont_packets fuel cid seq rest) ≡ (length rest + 58) / 59
unfolding cont_packets
length-cont_packets zero cid seq [] h = omega arith
length-cont_packets (suc fuel) cid seq [] h = omega arith
length-cont_packets zero cid seq (b ∷ bs) h = absurd (omega arith)
length-cont_packets (suc fuel) cid seq (b ∷ bs) h =
    let more = drop (min (length (b ∷ bs)) 59) (b ∷ bs) in
    omega (
      arith,
      length-drop (min (length (b ∷ bs)) 59) (b ∷ bs),
      length-cont_packets fuel cid ((seq + 1) % 256) more
          (omega (arith, length-drop (min (length (b ∷ bs)) 59) (b ∷ bs))),
    )

-- What `encode_message` returns on a payload of this length.
abbrev pub Encoded : List ℕ → Outcome FramingError (List (List ℕ)) → Type 0
Encoded payload (ok packets) =
    (length payload ≤ 7609)
    × (length packets ≡ packet_count (length payload))
    × (length packets ≤ 129)
Encoded payload (err e) = (7609 < length payload) × (e ≡ message_too_long (length payload))

-- A payload of at most 7609 bytes is written in `packet_count` packets, at most 129; a longer one
-- is refused with its length and nothing is written.
pub encode_message_count :
    (cid cmd : ℕ) (payload : List ℕ) → Encoded payload (encode_message cid cmd payload)
unfolding encode_message packet_count
encode_message_count cid cmd payload =
    let rest = drop (min (length payload) 57) payload in
    ground (
      arith,
      length-cont_packets (length rest) cid 0 rest (omega arith),
      length-drop (min (length payload) 57) payload,
    )
