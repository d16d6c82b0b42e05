-- ===== src/Core/Cbor/Decode.antt =====
-- crates/fidoh-core/src/cbor.rs: the strict and tolerant decoder. The reader holds the position and
-- the bytes behind it; a usize has 64 bits.
use Prim.Native.Nat.{Ordering}
use Prim.Native.String.{String}
use fidoh.Base.{
  ℕ, zero, suc, ◌+◌, ◌-◌, ◌/◌, ◌^◌, List, [], ◌∷◌, length, take, drop, from_be_bytes, bit_and, ltb,
  leb, ◌==◌, if◌then◌else◌, Bool, true, false, ◌&&◌, ◌||◌, bytes_eq, Option, none, some, Outcome,
  ok, err, ◌>>=◌,
}
use fidoh.Core.Cbor.{
  pos, negsuc, CborValue, int, bytes, text, array, map, bool, null, Items, nil, cons, Entries, end,
  entry, max_depth,
}
use fidoh.Core.Cbor.Encode.{canonical_key_cmp}

pub data DecodePolicy : Type 0 where
  strict tolerant : DecodePolicy

-- `DecodePolicy::is_strict`.
abbrev pub is_strict : DecodePolicy → Bool
is_strict strict = true
is_strict tolerant = false

-- `DecodeError`: the decoder's variants with their offset, and those of the message models with the
-- member they name. The detail of an invalid value, a text for people, is left out.
pub data DecodeError : Type 0 where
  unexpected_eof trailing_bytes indefinite_length non_canonical_encoding : ℕ → DecodeError
  unsorted_keys duplicate_key depth_limit_exceeded float_not_supported : ℕ → DecodeError
  invalid_structure : ℕ → String → DecodeError
  tag_not_allowed : ℕ → ℕ → DecodeError
  missing_member invalid_value : String → DecodeError
  type_mismatch : String → String → DecodeError

-- `Decoder`, without its policy.
pub record Decoder : Type 0 where
  pub at : ℕ
  pub rest : List ℕ

abbrev pub Decoded : Type 0 → Type 0
Decoded A = Outcome DecodeError (A × Decoder)

-- `Decoder::take`.
unfoldable pub take_bytes : ℕ → ℕ → Decoder → Decoded (List ℕ)
take_bytes n offset d =
    if ltb (length d.rest) n
    then err (unexpected_eof offset)
    else ok (take n d.rest, record { at = d.at + n; rest = drop n d.rest })

-- An arm of `argument_impl`: `n` bytes, and the least value that needs them.
unfoldable pub wide_argument : ℕ → ℕ → ℕ → Bool → Decoder → Decoded ℕ
unfolding take_bytes
wide_argument n least offset checked d = take_bytes n offset d >>= λ read.
    if checked && ltb (from_be_bytes read.0) least
    then err (non_canonical_encoding offset)
    else ok (from_be_bytes read.0, read.1)

-- `Decoder::argument_impl`.
unfoldable pub argument_impl : ℕ → ℕ → Bool → Decoder → Decoded ℕ
unfolding wide_argument
argument_impl info offset checked d =
    if ltb info 24
    then ok (info, d)
    else if info == 24
    then wide_argument 1 24 offset checked d
    else if info == 25
    then wide_argument 2 0x100 offset checked d
    else if info == 26
    then wide_argument 4 0x1_0000 offset checked d
    else if info == 27
    then wide_argument 8 0x1_0000_0000 offset checked d
    else err (invalid_structure offset "reserved or indefinite additional information")

-- `Decoder::length_argument`.
unfoldable pub length_argument : ℕ → ℕ → DecodePolicy → Decoder → Decoded ℕ
length_argument info offset policy d =
    if info == 31
    then err (indefinite_length offset)
    else argument_impl info offset (is_strict policy) d

-- The ranges of the continuation bytes behind a leading byte of UTF-8.
continuations : ℕ → Option (List (ℕ × ℕ))
continuations b =
    if ltb b 0x80
    then some []
    else if ltb b 0xc2
    then none
    else if ltb b 0xe0
    then some ((0x80, 0xbf) ∷ [])
    else if b == 0xe0
    then some ((0xa0, 0xbf) ∷ (0x80, 0xbf) ∷ [])
    else if b == 0xed
    then some ((0x80, 0x9f) ∷ (0x80, 0xbf) ∷ [])
    else if ltb b 0xf0
    then some ((0x80, 0xbf) ∷ (0x80, 0xbf) ∷ [])
    else if b == 0xf0
    then some ((0x90, 0xbf) ∷ (0x80, 0xbf) ∷ (0x80, 0xbf) ∷ [])
    else if ltb b 0xf4
    then some ((0x80, 0xbf) ∷ (0x80, 0xbf) ∷ (0x80, 0xbf) ∷ [])
    else if b == 0xf4
    then some ((0x80, 0x8f) ∷ (0x80, 0xbf) ∷ (0x80, 0xbf) ∷ [])
    else none

valid_behind : List (ℕ × ℕ) → List ℕ → Bool
valid_behind [] [] = true
valid_behind (range ∷ ranges) [] = false
valid_behind [] (b ∷ bs) = elim (continuations b) [
  | none ↦ false
  | some ranges ↦ valid_behind ranges bs
]
valid_behind ((low, high) ∷ ranges) (b ∷ bs) = leb low b && (leb b high && valid_behind ranges bs)

-- Whether `core::str::from_utf8` accepts the bytes.
unfoldable pub valid_utf8 : List ℕ → Bool
unfolding valid_behind continuations
valid_utf8 = valid_behind []

-- `Decoder::simple`.
unfoldable pub simple : ℕ → ℕ → Decoder → Decoded CborValue
simple info offset d =
    if info == 20
    then ok (bool false, d)
    else if info == 21
    then ok (bool true, d)
    else if info == 22
    then ok (null, d)
    else if leb 25 info && leb info 27
    then err (float_not_supported offset)
    else err (invalid_structure offset "unsupported simple value")

unfoldable pub text_or_bytes : ℕ → ℕ → List ℕ → Outcome DecodeError CborValue
text_or_bytes major offset raw =
    if major == 2
    then ok (bytes raw)
    else if valid_utf8 raw
    then ok (text raw)
    else err (invalid_structure offset "text string is not valid UTF-8")

-- The arm for byte and text strings.
unfoldable pub decode_string : ℕ → ℕ → ℕ → DecodePolicy → Decoder → Decoded CborValue
unfolding text_or_bytes
decode_string major info offset policy d = length_argument info offset policy d >>= λ read.
    let len = read.0 in
    let d' = read.1 in
    if leb (2 ^ 64) (d'.at + len)
    then err (invalid_structure offset "length overflows address space")
    else if ltb (length d'.rest) len
    then err (unexpected_eof d'.at)
    else text_or_bytes major offset (take len d'.rest) >>= λ v.
        ok (v, record { at = d'.at + len; rest = drop len d'.rest })

-- The loop of the array arm, over what decodes an item.
unfoldable pub decode_items : (Decoder → Decoded CborValue) → ℕ → Decoder → Decoded Items
decode_items item zero d = ok (nil, d)
decode_items item (suc len) d = item d >>= λ read.
    decode_items item len read.1 >>= λ others. ok (cons read.0 others.0, others.1)

unfoldable pub seen_before : List (List ℕ) → List ℕ → Bool
seen_before [] key = false
seen_before (s ∷ seen) key = bytes_eq s key || seen_before seen key

-- Whether the key does not come after the one before it.
unfoldable pub out_of_order : Option (List ℕ) → List ℕ → Bool
out_of_order none key = false
out_of_order (some prev) key = elim (canonical_key_cmp prev key) [ Ordering.lt ↦ false | _ ↦ true ]

-- The checks on the key between its decoding and that of its value.
unfoldable pub check_key :
    DecodePolicy → ℕ → ℕ → List (List ℕ) → Option (List ℕ) → List ℕ → Outcome DecodeError (Unit {0})
unfolding seen_before out_of_order
check_key policy offset key_offset seen prev key =
    if seen_before seen key
    then err (duplicate_key offset)
    else if is_strict policy && out_of_order prev key
    then err (unsorted_keys key_offset)
    else ok tt

-- The loop of the map arm.
unfoldable pub decode_entries :
    (Decoder → Decoded CborValue)
    → DecodePolicy
    → ℕ
    → ℕ
    → List (List ℕ)
    → Option (List ℕ)
    → Decoder
    → Decoded Entries
decode_entries item policy offset zero seen prev d = ok (end, d)
decode_entries item policy offset (suc len) seen prev d = item d >>= λ k.
    let key = take (k.1.at - d.at) d.rest in
    check_key policy offset d.at seen prev key >>= λ u. item k.1 >>= λ v.
    decode_entries item policy offset len (key ∷ seen) (some key) v.1 >>= λ others.
    ok (entry k.0 v.0 others.0, others.1)

-- The arms of `Decoder::value` behind the initial byte; `nested` decodes an item one level down, if
-- the nesting allows one.
unfoldable pub decode_major :
    Option (Decoder → Decoded CborValue) → DecodePolicy → ℕ → ℕ → ℕ → Decoder → Decoded CborValue
decode_major nested policy major info offset d =
    if major == 0
    then (argument_impl info offset (is_strict policy) d >>= λ read. ok (int (pos read.0), read.1))
    else if major == 1
    then (argument_impl info offset (is_strict policy) d >>= λ read.
        ok (int (negsuc read.0), read.1))
    else if major == 2 || major == 3
    then decode_string major info offset policy d
    else if major == 4
    then elim nested [
      | none ↦ err (depth_limit_exceeded offset)
      | some item ↦ length_argument info offset policy d >>= λ read.
          decode_items item read.0 read.1 >>= λ items. ok (array items.0, items.1)
    ]
    else if major == 5
    then elim nested [
      | none ↦ err (depth_limit_exceeded offset)
      | some item ↦ length_argument info offset policy d >>= λ read.
          decode_entries item policy offset read.0 [] none read.1 >>= λ entries.
          ok (map entries.0, entries.1)
    ]
    else if major == 6
    then (argument_impl info offset false d >>= λ read. err (tag_not_allowed offset read.0))
    else simple info offset d

unfoldable pub decode_item :
    Option (Decoder → Decoded CborValue) → DecodePolicy → Decoder → Decoded CborValue
decode_item nested policy d = elim d.rest [
  | [] ↦ err (unexpected_eof d.at)
  | initial ∷ behind ↦
      decode_major nested policy (initial / 32) (bit_and initial 0x1f) d.at
        (record { at = d.at + 1; rest = behind })
]

-- `Decoder::value`, by the levels of nesting that are left: `max_depth` less the depth.
unfoldable pub value : ℕ → DecodePolicy → Decoder → Decoded CborValue
value zero policy = decode_item none policy
value (suc levels) policy = decode_item (some (value levels policy)) policy

unfoldable pub all_read : Decoder → CborValue → Outcome DecodeError CborValue
all_read d v = elim d.rest [ [] ↦ ok v | b ∷ behind ↦ err (trailing_bytes d.at) ]

-- `CborValue::decode`.
unfoldable pub decode : List ℕ → DecodePolicy → Outcome DecodeError CborValue
unfolding all_read
decode input policy =
    value max_depth policy (record { at = 0; rest = input }) >>= λ read. all_read read.1 read.0

-- `CborValue::major_type`.
pub major_type : CborValue → ℕ
major_type (int (pos n)) = 0
major_type (int (negsuc n)) = 1
major_type (bytes b) = 2
major_type (text s) = 3
major_type (array items) = 4
major_type (map entries) = 5
major_type (bool b) = 7
major_type null = 7

pub no_map : ℕ → DecodeError
no_map major =
    if major == 0 || major == 1
    then invalid_structure 0 "expected a CBOR map, found an integer"
    else if major == 2
    then invalid_structure 0 "expected a CBOR map, found a byte string"
    else if major == 3
    then invalid_structure 0 "expected a CBOR map, found a text string"
    else if major == 4
    then invalid_structure 0 "expected a CBOR map, found an array"
    else invalid_structure 0 "expected a CBOR map, found a simple value"

unfoldable pub only_map : CborValue → Outcome DecodeError CborValue
only_map (map entries) = ok (map entries)
only_map v = err (no_map (major_type v))

-- `CborValue::decode_map`.
unfoldable pub decode_map : List ℕ → DecodePolicy → Outcome DecodeError CborValue
decode_map input policy = decode input policy >>= only_map
