-- ===== src/Hid/Packet/Layout.antt =====
-- The bytes that `encode_message` of packet.rs lays out, and how the parsers of packet.rs read them.
use fidoh.Base.{
  ℕ, ◌+◌, ◌-◌, ◌^◌, ◌≤◌, ◌<◌, min, ◌≡◌, refl, arith, List, ◌∷◌, ◌++◌, length, take, drop, replicate,
  to_be_bytes, bit_or, bit_and, length-append, length-replicate, length-take, overlay-replicate,
  bit_or-top, bit_and-low_seven, bit_and-top, ok,
}
use fidoh.Hid.Packet.{
  init_packet, cont_packet, classify, init, continuation, parse_init_header, parse_cont_header,
}

abbrev pub first_chunk : List ℕ → List ℕ
first_chunk payload = take (min (length payload) 57) payload

abbrev pub next_chunk : List ℕ → List ℕ
next_chunk rest = take (min (length rest) 59) rest

chunk_fits :
    (payload : List ℕ) → 57 ≡ length (first_chunk payload) + (57 - length (first_chunk payload))
chunk_fits payload = omega (arith, length-take (min (length payload) 57) payload)

-- The header, the data and zeros up to 64 bytes.
pub init_packet_layout :
    (cid cmd : ℕ) (payload : List ℕ)
    → init_packet cid cmd payload
      ≡ to_be_bytes 4 cid
        ++ bit_or cmd 0x80 ∷ to_be_bytes 2 (length payload)
        ++ first_chunk payload
        ++ replicate (57 - length (first_chunk payload)) 0
unfolding init_packet
init_packet_layout cid cmd payload = cc (
    overlay-replicate (first_chunk payload) 57 (57 - length (first_chunk payload)) 0
      (chunk_fits payload))

pub cont_packet_layout :
    (cid seq : ℕ) (rest : List ℕ)
    → cont_packet cid seq rest
      ≡ to_be_bytes 4 cid ++ seq ∷ next_chunk rest ++ replicate (59 - length (next_chunk rest)) 0
unfolding cont_packet
cont_packet_layout cid seq rest = cc (
    overlay-replicate (next_chunk rest) 59 (59 - length (next_chunk rest)) 0
      (omega (arith, length-take (min (length rest) 59) rest)))

padded : (xs : List ℕ) (n : ℕ) → length xs ≤ n → length (xs ++ replicate (n - length xs) 0) ≡ n
padded xs n h = omega (
  arith,
  length-append xs (replicate (n - length xs) 0),
  length-replicate {A = ℕ} (n - length xs) 0,
)

-- What a receiver reads in an initialization packet.
pub record ReadsInit (report : List ℕ) (cid cmd : ℕ) (payload : List ℕ) : Type 0 where
  pub size : length report ≡ 64
  pub kind : classify report ≡ ok init
  pub header :
      parse_init_header report ≡ ok (record { cid = cid; cmd = cmd; bcnt = length payload })
  pub body : drop 7 report ≡ first_chunk payload ++ replicate (57 - length (first_chunk payload)) 0

-- The type bit goes on and comes off.
type_bit :
    (cmd : ℕ)
    → cmd < 128
    → (bit_or cmd 0x80 ≡ cmd + 128)
      × (bit_and (cmd + 128) 0x80 ≡ 128)
      × (bit_and (cmd + 128) 0x7f ≡ cmd)
type_bit cmd h =
    ground (arith, bit_or-top cmd, bit_and-top (cmd + 128), bit_and-low_seven (cmd + 128))

module _ (cid cmd : ℕ) (payload : List ℕ) (fits_cid : cid < 2 ^ 32) (fits_cmd : cmd < 128) where
  size_of_init : length (init_packet cid cmd payload) ≡ 64
  size_of_init = rw init_packet_layout (
      omega (
        arith,
        padded (first_chunk payload) 57
            (omega (arith, length-take (min (length payload) 57) payload)),
      ))

  kind_of_init : classify (init_packet cid cmd payload) ≡ ok init
  unfolding classify
  kind_of_init = let e = size_of_init in rw e (rw init_packet_layout (ground (arith, type_bit cmd)))

  header_of_init :
      length payload < 2 ^ 16
      → parse_init_header (init_packet cid cmd payload)
        ≡ ok (record { cid = cid; cmd = cmd; bcnt = length payload })
  unfolding parse_init_header
  header_of_init h =
      let e = size_of_init in rw e (rw init_packet_layout (ground (arith, type_bit cmd)))

  -- The initialization packet of a payload below 64 KiB, on a channel of 32 bits with a 7-bit
  -- command, is a full report of its kind, from which the parsers read the channel, the command and
  -- the length, and whose data is the front of the payload and zeros.
  pub init_packet-ReadsInit :
      length payload < 2 ^ 16 → ReadsInit (init_packet cid cmd payload) cid cmd payload
  init_packet-ReadsInit h = record {
    size = size_of_init;
    kind = kind_of_init;
    header = header_of_init h;
    body = rw init_packet_layout refl;
  }

-- What a receiver reads in a continuation packet.
pub record ReadsCont (report : List ℕ) (cid seq : ℕ) (rest : List ℕ) : Type 0 where
  pub size : length report ≡ 64
  pub kind : classify report ≡ ok continuation
  pub header : parse_cont_header report ≡ ok (cid, seq)
  pub body : drop 5 report ≡ next_chunk rest ++ replicate (59 - length (next_chunk rest)) 0

module _ (cid seq : ℕ) (rest : List ℕ) (fits_cid : cid < 2 ^ 32) (fits_seq : seq < 128) where
  size_of_cont : length (cont_packet cid seq rest) ≡ 64
  size_of_cont = rw cont_packet_layout (
      omega (
        arith,
        padded (next_chunk rest) 59 (omega (arith, length-take (min (length rest) 59) rest)),
      ))

  kind_of_cont : classify (cont_packet cid seq rest) ≡ ok continuation
  unfolding classify
  kind_of_cont =
      let e = size_of_cont in rw e (rw cont_packet_layout (ground (arith, bit_and-top seq)))

  header_of_cont : parse_cont_header (cont_packet cid seq rest) ≡ ok (cid, seq)
  unfolding parse_cont_header
  header_of_cont = let e = size_of_cont in rw e (rw cont_packet_layout (ground arith))

  -- The continuation packet with a 7-bit sequence number, on a channel of 32 bits, is a full report
  -- of its kind, from which the parsers read the channel and the number, and whose data is the front
  -- of the rest and zeros.
  pub cont_packet-ReadsCont : ReadsCont (cont_packet cid seq rest) cid seq rest
  cont_packet-ReadsCont = record {
    size = size_of_cont;
    kind = kind_of_cont;
    header = header_of_cont;
    body = rw cont_packet_layout refl;
  }
