-- ===== src/Core/Cbor/Scalars.antt =====
-- The values of cbor.rs that hold no others, encoded and decoded.
use fidoh.Base.{
  ℕ, suc, ◌+◌, ◌%◌, ◌^◌, ◌<◌, ◌≤◌, ◌≡◌, refl, ◌∙◌, arith, List, [], ◌∷◌, ◌++◌, length, take, drop,
  bit_and, Bool, true, false, ok, ◌>>=◌, ltb, leb, ◌==◌, ◌||◌, Option, append-nil, append_assoc,
  length-append, take-append_front, drop-append_front, Bool-cases, inl, inr, ◌⊎◌, ◌≢◌, subst, some,
}
use fidoh.Core.Cbor.{CborValue, int, bytes, text, ℤ, pos, negsuc}
use fidoh.Core.Cbor.Encode.{write_head, encode, encode_value}
use fidoh.Core.Cbor.Decode.{
  DecodePolicy, Decoder, Decoded, argument_impl, length_argument, decode_string, value, decode,
  decode_item, decode_major, is_strict, valid_utf8, text_or_bytes,
}
use fidoh.Core.Cbor.Heads.{HeadReads, write_head-HeadReads}

not_marker :
    (info arg : ℕ) (behind : List ℕ)
    → (info == 31) ≡ true
    → argument_impl info 0 true (record { at = 0; rest = behind ++ [] })
      ≢ ok (arg, record { at = 0 + length behind; rest = [] })
unfolding argument_impl
not_marker info arg behind e r = ground (arith, e, r)

module _ (nested : Option (Decoder → Decoded CborValue)) (policy : DecodePolicy) where
  item-unsigned :
      (arg at : ℕ) (hd rest : List ℕ)
      → HeadReads 0 arg hd
      → decode_item nested policy (record { at = at; rest = hd ++ rest })
        ≡ ok (int (pos arg), record { at = at + length hd; rest = rest })
  unfolding decode_item decode_major
  item-unsigned arg at [] rest h = absurd h
  item-unsigned arg at (b ∷ behind) rest (e, reads) =
      let same : at + 1 + length behind ≡ at + suc (length behind) = omega arith in
      rw (e, reads) (rw same refl)

  item-negative :
      (arg at : ℕ) (hd rest : List ℕ)
      → HeadReads 1 arg hd
      → decode_item nested policy (record { at = at; rest = hd ++ rest })
        ≡ ok (int (negsuc arg), record { at = at + length hd; rest = rest })
  unfolding decode_item decode_major
  item-negative arg at [] rest h = absurd h
  item-negative arg at (b ∷ behind) rest (e, reads) =
      let same : at + 1 + length behind ≡ at + suc (length behind) = omega arith in
      rw (e, reads) (rw same refl)

  -- A length is read as any argument is: what reads as one is not the indefinite marker.
  length_argument-reads :
      (info arg offset at : ℕ) (behind rest : List ℕ)
      → ((offset at : ℕ) (checked : Bool) (rest : List ℕ)
          → argument_impl info offset checked (record { at = at; rest = behind ++ rest })
            ≡ ok (arg, record { at = at + length behind; rest = rest }))
      → length_argument info offset policy (record { at = at; rest = behind ++ rest })
        ≡ ok (arg, record { at = at + length behind; rest = rest })
  unfolding length_argument
  length_argument-reads info arg offset at behind rest reads = elim (Bool-cases (info == 31)) [
    | inl e ↦ absurd (not_marker info arg behind e (reads 0 0 true []))
    | inr e ↦ rw e (reads offset at (is_strict policy) rest)
  ]

  decode_string-reads :
      (major info arg offset at : ℕ) (behind body rest : List ℕ)
      → ((offset at : ℕ) (checked : Bool) (rest : List ℕ)
          → argument_impl info offset checked (record { at = at; rest = behind ++ rest })
            ≡ ok (arg, record { at = at + length behind; rest = rest }))
      → arg ≡ length body
      → at + length behind + arg < 2 ^ 64
      → decode_string major info offset policy (record { at = at; rest = behind ++ (body ++ rest) })
        ≡ (text_or_bytes major offset body >>= λ v.
            ok (v, record { at = at + length behind + arg; rest = rest }))
  unfolding decode_string
  decode_string-reads major info arg offset at behind body rest reads size room =
      let fits : leb (2 ^ 64) (at + length behind + arg) ≡ false = ground arith in
      let enough : ltb (length (body ++ rest)) arg ≡ false =
        ground (arith, length-append body rest) in
      let front : take arg (body ++ rest) ≡ body = take-append_front body rest arg size in
      let back : drop arg (body ++ rest) ≡ rest = drop-append_front body rest arg size in
      rw (length_argument-reads info arg offset at behind (body ++ rest) reads)
        (rw (fits, enough, front, back) refl)

  string-reads :
      (major arg at : ℕ) (hd body rest : List ℕ)
      → HeadReads major arg hd
      → (major ≡ 2) ⊎ (major ≡ 3)
      → arg ≡ length body
      → at + length hd + length body < 2 ^ 64
      → decode_item nested policy (record { at = at; rest = hd ++ (body ++ rest) }) ≡ (
          text_or_bytes major at body >>= λ v.
          ok (v, record { at = at + length hd + length body; rest = rest }))
  unfolding decode_item decode_major decode_string
  string-reads major arg at [] body rest h m size room = absurd h
  string-reads major arg at (b ∷ behind) body rest (e, reads) m size room =
      let same : at + 1 + length behind + arg ≡ at + suc (length behind) + length body =
        omega arith in
      let kind : (major == 2 || major == 3) ≡ true = ground arith in
      let zeroth : (major == 0) ≡ false = ground arith in
      let first : (major == 1) ≡ false = ground arith in
      rw (e, zeroth, first, kind)
        (rw
          (decode_string-reads major (bit_and b 0x1f) arg at (at + 1) behind body rest reads size
            (omega arith))
          (rw same refl))

decode_whole :
    (bs : List ℕ) (v : CborValue) (policy : DecodePolicy) (n : ℕ)
    → ((nested : Option (Decoder → Decoded CborValue))
        → decode_item nested policy (record { at = 0; rest = bs ++ [] })
          ≡ ok (v, record { at = n; rest = [] }))
    → decode bs policy ≡ ok v
unfolding decode value
decode_whole bs v policy n h =
    let item : Decoder → Decoded CborValue = value 3 policy in
    let e : decode_item (some item) policy (record { at = 0; rest = bs })
        ≡ ok (v, record { at = n; rest = [] }) =
      subst
        (λ (t : List ℕ).
          decode_item (some item) policy (record { at = 0; rest = t })
          ≡ ok (v, record { at = n; rest = [] }))
        (append-nil bs) (h (some item)) in
    rw e refl

-- What the wire holds of an integer.
abbrev pub low_word : ℤ → ℤ
low_word (pos n) = pos (n % 2 ^ 64)
low_word (negsuc n) = negsuc (n % 2 ^ 64)

-- Every integer is encoded without an error, and both postures decode it, but only its argument
-- modulo 2^64 comes back: one outside the range of the wire comes back as another.
pub int_round_trip :
    (z : ℤ) (policy : DecodePolicy)
    → (bs : List ℕ) × (encode (int z) ≡ ok bs) × (decode bs policy ≡ ok (int (low_word z)))
unfolding encode encode_value
int_round_trip (pos n) policy =
    let hd : List ℕ = write_head 0 (n % 2 ^ 64) in
    (
      hd,
      refl,
      decode_whole hd (int (pos (n % 2 ^ 64))) policy (0 + length hd) λ nested.
          item-unsigned nested policy (n % 2 ^ 64) 0 hd []
            (write_head-HeadReads 0 (n % 2 ^ 64) (omega arith) (omega arith)),
    )
int_round_trip (negsuc n) policy =
    let hd : List ℕ = write_head 1 (n % 2 ^ 64) in
    (
      hd,
      refl,
      decode_whole hd (int (negsuc (n % 2 ^ 64))) policy (0 + length hd) λ nested.
          item-negative nested policy (n % 2 ^ 64) 0 hd []
            (write_head-HeadReads 1 (n % 2 ^ 64) (omega arith) (omega arith)),
    )

length-write_head : (major arg : ℕ) → length (write_head major arg) ≤ 9
unfolding write_head
length-write_head major arg = ground arith

-- Every byte string shorter than 2^64 - 9, and every text of such a length, comes back from its
-- encoding under both postures.
pub string_round_trip :
    (b : List ℕ) (policy : DecodePolicy)
    → length b + 9 < 2 ^ 64
    → ((bs : List ℕ) × (encode (bytes b) ≡ ok bs) × (decode bs policy ≡ ok (bytes b)))
      × (valid_utf8 b ≡ true
          → (bs : List ℕ) × (encode (text b) ≡ ok bs) × (decode bs policy ≡ ok (text b)))
unfolding encode encode_value text_or_bytes
string_round_trip b policy room =
    let two : List ℕ = write_head 2 (length b) in
    let three : List ℕ = write_head 3 (length b) in
    (
      (
        two ++ b,
        refl,
        decode_whole (two ++ b) (bytes b) policy (0 + length two + length b) λ nested.
            rw (append_assoc two b []) (
              string-reads nested policy 2 (length b) 0 two b []
                (write_head-HeadReads 2 (length b) (omega arith) (omega arith)) (inl refl) refl
                (omega (arith, length-write_head 2 (length b)))),
      ),
      λ valid. (
        three ++ b,
        refl,
        decode_whole (three ++ b) (text b) policy (0 + length three + length b) λ nested.
            rw (append_assoc three b []) (
              string-reads nested policy 3 (length b) 0 three b []
                (write_head-HeadReads 3 (length b) (omega arith) (omega arith)) (inr refl) refl
                (omega (arith, length-write_head 3 (length b)))
              ∙ (rw valid refl)),
      ),
    )
