-- ===== src/Core/Cbor/Strict.antt =====
-- Strict decoding in cbor.rs, item by item: every arm consumes the canonical encoding of its value.
use fidoh.Base.{
  ℕ, ◌+◌, ◌*◌, ◌%◌, ◌^◌, ◌<◌, ◌≡◌, refl, sym, ap, ◌∙◌, arith, List, [], ◌∷◌, ◌++◌, length, take,
  drop, bit_or, true, false, ok, All, IsByte, ltb, leb, ◌==◌, Bool-cases, inl, inr, ◌⊎◌,
  take-append-drop, length-take, subst, Option, none, some,
}
use fidoh.Core.Cbor.{CborValue, bytes, text, bool, null}
use fidoh.Core.Cbor.Encode.{write_head, encode_value, encode_items, encode_keys, write_map}
use fidoh.Core.Cbor.Decode.{
  strict, Decoder, Decoded, argument_impl, length_argument, text_or_bytes, decode_string,
  decode_items, decode_entries, decode_major, simple,
}
use fidoh.Core.Cbor.Minimal.{
  bind_ok, guard_ok, Consumed, IsMinimal, argument_impl-IsMinimal, All-drop,
}
use fidoh.Core.Cbor.Canonical.{
  ok_pair, Consumed-refl, Consumed-trans, IsStrictItem, sort_keys-Ascending, has_twin-Ascending,
  decode_items-Encodes, decode_entries-Encodes,
}

-- Behind the initial byte of this major type and information.
abbrev pub EncodesBehind : ℕ → ℕ → ℕ → Decoder → CborValue → Decoder → Type 0
EncodesBehind depth major info d v d' =
    (used : List ℕ) × Consumed d d' used
    × (encode_value v depth ≡ ok (bit_or (major * 32 % 256) info ∷ used))

length_argument-IsMinimal :
    (major info offset len : ℕ) (d d' : Decoder)
    → length_argument info offset strict d ≡ ok (len, d')
    → All IsByte d.rest
    → IsMinimal major info len d d'
unfolding length_argument
length_argument-IsMinimal major info offset len d d' h y =
    argument_impl-IsMinimal major info offset len d d' (guard_ok (info == 31) _ _ h).1 y

module _ (depth : ℕ) (nested : Option (Decoder → Decoded CborValue)) where
  pub unsigned-Encodes :
      (info offset : ℕ) (d d' : Decoder) (v : CborValue)
      → decode_major nested strict 0 info offset d ≡ ok (v, d')
      → All IsByte d.rest
      → EncodesBehind depth 0 info d v d'
  unfolding decode_major encode_value
  unsigned-Encodes info offset d d' v h y =
      let (read, e, h1) = bind_ok (argument_impl info offset true d) _ h in
      let (is, s) = ok_pair h1 in
      let m = argument_impl-IsMinimal 0 info offset read.0 d read.1 e y in
      let small : read.0 % 2 ^ 64 ≡ read.0 = omega (arith, m.small) in
      (
        m.used,
        subst (λ (x : Decoder). Consumed d x m.used) s m.consumed,
        subst (λ (t : CborValue). encode_value t depth ≡ ok (bit_or (0 * 32 % 256) info ∷ m.used))
            is (rw small (ap ok m.canonical)),
      )

  pub negative-Encodes :
      (info offset : ℕ) (d d' : Decoder) (v : CborValue)
      → decode_major nested strict 1 info offset d ≡ ok (v, d')
      → All IsByte d.rest
      → EncodesBehind depth 1 info d v d'
  unfolding decode_major encode_value
  negative-Encodes info offset d d' v h y =
      let (read, e, h1) = bind_ok (argument_impl info offset true d) _ h in
      let (is, s) = ok_pair h1 in
      let m = argument_impl-IsMinimal 1 info offset read.0 d read.1 e y in
      let small : read.0 % 2 ^ 64 ≡ read.0 = omega (arith, m.small) in
      (
        m.used,
        subst (λ (x : Decoder). Consumed d x m.used) s m.consumed,
        subst (λ (t : CborValue). encode_value t depth ≡ ok (bit_or (1 * 32 % 256) info ∷ m.used))
            is (rw small (ap ok m.canonical)),
      )

  pub simple-Encodes :
      (info offset : ℕ) (d d' : Decoder) (v : CborValue)
      → simple info offset d ≡ ok (v, d')
      → All IsByte d.rest
      → EncodesBehind depth 7 info d v d'
  unfolding simple encode_value
  simple-Encodes info offset d d' v h y = elim (Bool-cases (info == 20)) [
    | inl e ↦ done info 20 (ground arith) (bool false) refl (rw e at h)
    | inr e ↦ elim (Bool-cases (info == 21)) [
      | inl e1 ↦ done info 21 (ground arith) (bool true) refl (rw (e, e1) at h)
      | inr e1 ↦ elim (Bool-cases (info == 22)) [
        | inl e2 ↦ done info 22 (ground arith) null refl (rw (e, e1, e2) at h)
        | inr e2 ↦ absurd (ground (arith, e, e1, e2, h))
      ]
    ]
  ]
    where
      done :
          (i n : ℕ)
          → i ≡ n
          → (w : CborValue) → encode_value w depth ≡ ok (bit_or (7 * 32 % 256) n ∷ [])
          → ◌≡◌ {A = Decoded CborValue} (ok (w, d)) (ok (v, d'))
          → EncodesBehind depth 7 i d v d'
      done i n e w enc q =
          let (is, s) = ok_pair q in
          (
            [],
            Consumed-refl s y,
            subst (λ (t : CborValue). encode_value t depth ≡ ok (bit_or (7 * 32 % 256) i ∷ [])) is
                (rw e enc),
          )

  text_or_bytes-Encodes :
      (major offset : ℕ) (raw : List ℕ) (v : CborValue)
      → (major ≡ 2) ⊎ (major ≡ 3)
      → text_or_bytes major offset raw ≡ ok v
      → encode_value v depth ≡ ok (write_head major (length raw) ++ raw)
  unfolding text_or_bytes encode_value
  text_or_bytes-Encodes major offset raw v (inl e) h =
      let is : bytes raw ≡ v = ground (arith, e, h) in
      subst (λ (t : CborValue). encode_value t depth ≡ ok (write_head major (length raw) ++ raw)) is
        (rw e refl)
  text_or_bytes-Encodes major offset raw v (inr e) h =
      let is : text raw ≡ v = ground (arith, e, h) in
      subst (λ (t : CborValue). encode_value t depth ≡ ok (write_head major (length raw) ++ raw)) is
        (rw e refl)

  pub string-Encodes :
      (major info offset : ℕ) (d d' : Decoder) (v : CborValue)
      → (major ≡ 2) ⊎ (major ≡ 3)
      → decode_string major info offset strict d ≡ ok (v, d')
      → All IsByte d.rest
      → EncodesBehind depth major info d v d'
  unfolding decode_string
  string-Encodes major info offset d d' v two h y =
      let (read, e, h1) = bind_ok (length_argument info offset strict d) _ h in
      let (room, h2) = guard_ok (leb (2 ^ 64) (read.1.at + read.0)) _ _ h1 in
      let (fits, h3) = guard_ok (ltb (length read.1.rest) read.0) _ _ h2 in
      let (w, e4, h4) = bind_ok (text_or_bytes major offset (take read.0 read.1.rest)) _ h3 in
      let (is, s) = ok_pair h4 in
      let m = length_argument-IsMinimal major info offset read.0 d read.1 e y in
      let raw : List ℕ = take read.0 read.1.rest in
      let size : length raw ≡ read.0 = taken read.0 read.1.rest fits in
      let body : Consumed read.1
          (record { at = read.1.at + read.0; rest = drop read.0 read.1.rest }) raw =
        record {
          input = sym (take-append-drop read.0 read.1.rest);
          moved = ap (λ (n : ℕ). read.1.at + n) (sym size);
          left = All-drop read.0 read.1.rest m.consumed.left;
        } in
      (
        m.used ++ raw,
        subst (λ (x : Decoder). Consumed d x (m.used ++ raw)) s (Consumed-trans m.consumed body),
        subst
            (λ (t : CborValue).
              encode_value t depth ≡ ok (bit_or (major * 32 % 256) info ∷ m.used ++ raw))
            is
            (text_or_bytes-Encodes major offset raw w two e4
              ∙ ap (λ (n : ℕ). ok (write_head major n ++ raw)) size
              ∙ ap (λ (t : List ℕ). ok (t ++ raw)) m.canonical),
      )
    where
      taken : (n : ℕ) (xs : List ℕ) → ltb (length xs) n ≡ false → length (take n xs) ≡ n
      taken n xs h = ground (arith, length-take n xs)

module _ (depth : ℕ) (item : Decoder → Decoded CborValue) (shallow : depth < 4)
    (strict_item : IsStrictItem (depth + 1) item) where
  pub array-Encodes :
      (info offset : ℕ) (d d' : Decoder) (v : CborValue)
      → decode_major (some item) strict 4 info offset d ≡ ok (v, d')
      → All IsByte d.rest
      → EncodesBehind depth 4 info d v d'
  unfolding decode_major encode_value encode_items
  array-Encodes info offset d d' v h y =
      let (read, e, h1) = bind_ok (length_argument info offset strict d) _ h in
      let (items, e1, h2) = bind_ok (decode_items item read.0 read.1) _ h1 in
      let (is, s) = ok_pair h2 in
      let m = length_argument-IsMinimal 4 info offset read.0 d read.1 e y in
      let (us, c, w, n) =
        decode_items-Encodes (depth + 1) item strict_item read.0 read.1 items.1 items.0 e1
          m.consumed.left in
      let few : leb 4 depth ≡ false = ground (arith, shallow) in
      (
        m.used ++ us,
        subst (λ (x : Decoder). Consumed d x (m.used ++ us)) s (Consumed-trans m.consumed c),
        subst
            (λ (t : CborValue).
              encode_value t depth ≡ ok (bit_or (4 * 32 % 256) info ∷ m.used ++ us))
            is (rw (few, w, n) (ap (λ (t : List ℕ). ok (t ++ us)) m.canonical)),
      )

  pub map-Encodes :
      (info offset : ℕ) (d d' : Decoder) (v : CborValue)
      → decode_major (some item) strict 5 info offset d ≡ ok (v, d')
      → All IsByte d.rest
      → EncodesBehind depth 5 info d v d'
  unfolding decode_major encode_value encode_keys write_map
  map-Encodes info offset d d' v h y =
      let (read, e, h1) = bind_ok (length_argument info offset strict d) _ h in
      let (entries, e1, h2) =
        bind_ok (decode_entries item strict offset read.0 [] none read.1) _ h1 in
      let (is, s) = ok_pair h2 in
      let m = length_argument-IsMinimal 5 info offset read.0 d read.1 e y in
      let (us, ks, c, keys, w, asc, n) =
        decode_entries-Encodes (depth + 1) item strict_item read.0 offset [] none read.1 entries.1
          entries.0 e1 m.consumed.left in
      let few : leb 4 depth ≡ false = ground (arith, shallow) in
      (
        m.used ++ us,
        subst (λ (x : Decoder). Consumed d x (m.used ++ us)) s (Consumed-trans m.consumed c),
        subst
            (λ (t : CborValue).
              encode_value t depth ≡ ok (bit_or (5 * 32 % 256) info ∷ m.used ++ us))
            is
            (rw (few, keys, sort_keys-Ascending none ks asc, has_twin-Ascending none ks asc, w, n)
              (ap (λ (t : List ℕ). ok (t ++ us)) m.canonical)),
      )
