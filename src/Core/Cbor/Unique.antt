-- ===== src/Core/Cbor/Unique.antt =====
-- Strict decoding in cbor.rs as a whole: the input is the one encoding of the value.
use fidoh.Base.{
  ℕ, zero, suc, ◌+◌, ◌*◌, ◌/◌, ◌%◌, ◌<◌, ◌≡◌, refl, sym, ap, ◌∙◌, arith, List, [], ◌∷◌, ◌++◌,
  bit_or, bit_and, bit_or-fields, bit_and-low_five, false, ok, All, IsByte, inl, inr, append-nil,
  subst, Option, none, some,
}
use fidoh.Core.Cbor.{CborValue}
use fidoh.Core.Cbor.Encode.{encode, encode_value}
use fidoh.Core.Cbor.Decode.{
  strict, Decoder, Decoded, argument_impl, decode_major, decode_item, value, decode, all_read,
}
use fidoh.Core.Cbor.Minimal.{bind_ok}
use fidoh.Core.Cbor.Canonical.{Encodes, IsStrictItem}
use fidoh.Core.Cbor.Strict.{
  EncodesBehind, unsigned-Encodes, negative-Encodes, simple-Encodes, string-Encodes, array-Encodes,
  map-Encodes,
}

NestedIsStrict : ℕ → Option (Decoder → Decoded CborValue) → Type 0
NestedIsStrict depth none = Unit {0}
NestedIsStrict depth (some item) = (depth < 4) × IsStrictItem (depth + 1) item

major-Encodes :
    (depth : ℕ) (nested : Option (Decoder → Decoded CborValue)) (major info offset : ℕ)
    (d d' : Decoder) (v : CborValue)
    → NestedIsStrict depth nested
    → major < 8
    → decode_major nested strict major info offset d ≡ ok (v, d')
    → All IsByte d.rest
    → EncodesBehind depth major info d v d'
unfolding decode_major NestedIsStrict
major-Encodes depth nested zero info offset d d' v ih small h y =
    unsigned-Encodes depth nested info offset d d' v h y
major-Encodes depth nested (suc zero) info offset d d' v ih small h y =
    negative-Encodes depth nested info offset d d' v h y
major-Encodes depth nested (suc (suc zero)) info offset d d' v ih small h y =
    string-Encodes depth nested 2 info offset d d' v (inl refl) h y
major-Encodes depth nested (suc (suc (suc zero))) info offset d d' v ih small h y =
    string-Encodes depth nested 3 info offset d d' v (inr refl) h y
major-Encodes depth none (suc (suc (suc (suc zero)))) info offset d d' v ih small h y = absurd cc
major-Encodes depth (some item) (suc (suc (suc (suc zero)))) info offset d d' v ih small h y =
    array-Encodes depth item ih.0 ih.1 info offset d d' v h y
major-Encodes depth none (suc (suc (suc (suc (suc zero))))) info offset d d' v ih small h y =
    absurd cc
major-Encodes depth (some item) (suc (suc (suc (suc (suc zero))))) info offset d d' v ih small h y =
    map-Encodes depth item ih.0 ih.1 info offset d d' v h y
major-Encodes depth nested (suc (suc (suc (suc (suc (suc zero)))))) info offset d d' v ih small h
      y =
    let (read, e, h1) = bind_ok (argument_impl info offset false d) _ h in absurd cc
major-Encodes depth nested (suc (suc (suc (suc (suc (suc (suc zero))))))) info offset d d' v ih
      small h y =
    simple-Encodes depth nested info offset d d' v h y
major-Encodes depth nested (suc (suc (suc (suc (suc (suc (suc (suc n)))))))) info offset d d' v ih
      small h y =
    absurd (omega arith)

-- The two fields of an initial byte make it up again.
initial_byte : (b : ℕ) → IsByte b → bit_or (b / 32 * 32 % 256) (bit_and b 0x1f) ≡ b
initial_byte b h =
    let e : b / 32 * 32 % 256 ≡ b / 32 * 32 = omega arith in
    rw e (
      ground
        (arith, bit_or-fields (b / 32) (b % 32) (omega arith) (omega arith), bit_and-low_five b h))

item-Encodes :
    (depth : ℕ) (nested : Option (Decoder → Decoded CborValue)) (at : ℕ) (rest : List ℕ)
    (d' : Decoder) (v : CborValue)
    → NestedIsStrict depth nested
    → decode_item nested strict (record { at = at; rest = rest }) ≡ ok (v, d')
    → All IsByte rest
    → Encodes depth (record { at = at; rest = rest }) v d'
unfolding decode_item
item-Encodes depth nested at [] d' v ih h y = absurd cc
item-Encodes depth nested at (b ∷ behind) d' v ih h y =
    let (used, c, w) =
      major-Encodes depth nested (b / 32) (bit_and b 0x1f) at
        (record { at = at + 1; rest = behind }) d' v ih (omega (arith, y.0)) h y.1 in
    (
      b ∷ used,
      record { input = ap (λ t. b ∷ t) c.input; moved = omega (arith, c.moved); left = c.left },
      w ∙ ap (λ (x : ℕ). ok (x ∷ used)) (initial_byte b y.0),
    )

value-Encodes : (levels depth : ℕ) → depth + levels ≡ 4 → IsStrictItem depth (value levels strict)
unfolding value NestedIsStrict
value-Encodes zero depth e d d' v h y = item-Encodes depth none d.at d.rest d' v tt h y
value-Encodes (suc levels) depth e d d' v h y =
    item-Encodes depth (some (value levels strict)) d.at d.rest d' v
      (omega arith, value-Encodes levels (depth + 1) (omega arith)) h y

-- Bytes that are decoded strictly are the encoding of the value that they decode to: each value has
-- at most one encoding that strict decoding accepts, and it is the canonical one.
pub decode_strict_canonical :
    (input : List ℕ) (v : CborValue)
    → All IsByte input
    → decode input strict ≡ ok v
    → encode v ≡ ok input
unfolding decode encode all_read
decode_strict_canonical input v y h =
    let (read, e, h1) = bind_ok (value 4 strict (record { at = 0; rest = input })) _ h in
    let (used, c, w) = value-Encodes 4 0 refl (record { at = 0; rest = input }) read.1 read.0 e y in
    let (is, over) = whole read.1.rest read.1.at read.0 h1 in
    subst (λ (t : CborValue). encode_value t 0 ≡ ok input) is
      (w ∙ ap ok (sym (c.input ∙ ap (λ t. used ++ t) over ∙ append-nil used)))
  where
    whole :
        (rest : List ℕ) (at : ℕ) (w : CborValue)
        → all_read (record { at = at; rest = rest }) w ≡ ok v
        → (w ≡ v) × (rest ≡ [])
    whole [] at w q = (cc, refl)
    whole (b ∷ bs) at w q = absurd cc
