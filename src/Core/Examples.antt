-- ===== src/Core/Examples.antt =====
-- Concrete runs of the core's operations.
use mathlib.Core.List.{Memᴰ}
use fidoh.Base.{
  ℕ, ◌+◌, ◌^◌, ◌≡◌, ◌↔◌, min, refl, arith, true, List, bytes_eq, All, IsByte, [], ◌∷◌, none, some,
  ok, ◌-◌,
}
use fidoh.Core.Cbor.{
  CborValue, int, bytes, text, array, map, bool, null, pos, negsuc, nil, cons, end, entry,
  count_items, count_entries,
}
use fidoh.Core.Cbor.Encode.{
  encode, encode_value, write_head, write_map, sort_keys, insert_key, has_twin, write_keys,
  canonical_key_cmp, slice_cmp,
}
use fidoh.Core.Cbor.Decode.{
  decode, strict, tolerant, valid_utf8, value, decode_item, decode_major, decode_entries,
  decode_items, decode_string, text_or_bytes, length_argument, argument_impl, wide_argument,
  take_bytes, check_key, seen_before, out_of_order, simple, all_read,
}
use fidoh.Core.Cbor.Unique.{decode_strict_canonical}
use fidoh.Core.Cbor.Scalars.{low_word, int_round_trip, string_round_trip}
use fidoh.Core.Time.{Deadline, new, ctaphid_read_slice, nfc_field_poll_slice}
use fidoh.Core.Time.Budget.{slices_pay_budget, slices_fit, FitsBudget, total_granted, after_slices}
use fidoh.Core.Errors.{CandidateDescriptor}
use fidoh.Core.Selection.{contains, descriptor_eq, aaguid_eq, select, apply_selection}
use fidoh.Core.Selection.Choice.{selected-Memᴰ, apply_selection-Declined, Declined}

slices_pay_budget_example :
    total_granted (30 ∷ 50 ∷ 40 ∷ []) (new 100)
      + (after_slices (30 ∷ 50 ∷ 40 ∷ []) (new 100)).remaining
    ≡ min 100 (2 ^ 64 - 1)
slices_pay_budget_example = slices_pay_budget 100 (30 ∷ 50 ∷ 40 ∷ [])

abbrev ten : Deadline
ten = record { remaining = 10 }

slices_fit_example :
    FitsBudget 30_000_000_000 ten (ctaphid_read_slice ten)
    × FitsBudget 1_000_000_000 ten (nfc_field_poll_slice ten)
slices_fit_example = slices_fit ten

abbrev usb_key : CandidateDescriptor
usb_key = record { id = "hidraw0"; name = "key"; aaguid = none }

abbrev nfc_key : CandidateDescriptor
nfc_key = record { id = "reader 0"; name = "card"; aaguid = none }

selected-Memᴰ_example : Memᴰ nfc_key (usb_key ∷ nfc_key ∷ [])
unfolding apply_selection contains descriptor_eq aaguid_eq
selected-Memᴰ_example =
    selected-Memᴰ {D = ℕ} (select (λ candidates. some nfc_key)) (usb_key ∷ nfc_key ∷ []) nfc_key
      refl

apply_selection-Declined_example :
    (apply_selection {D = ℕ} (select (λ candidates. none)) (usb_key ∷ []) ≡ ok none)
    ↔ Declined (select (λ candidates. none)) (usb_key ∷ [])
apply_selection-Declined_example =
    apply_selection-Declined {D = ℕ} (select (λ candidates. none)) (usb_key ∷ [])

-- Three above 2^64, which comes back as 3.
abbrev wide_int : ℕ
wide_int = 2 ^ 64 + 3

int_round_trip_example :
    (bs : List ℕ) × (encode (int (pos wide_int)) ≡ ok bs)
    × (decode bs strict ≡ ok (int (low_word (pos wide_int))))
int_round_trip_example = int_round_trip (pos wide_int) strict

string_round_trip_example :
    ((bs : List ℕ) × (encode (bytes (0x66 ∷ 0x6d ∷ 0x74 ∷ [])) ≡ ok bs)
      × (decode bs tolerant ≡ ok (bytes (0x66 ∷ 0x6d ∷ 0x74 ∷ []))))
    × (valid_utf8 (0x66 ∷ 0x6d ∷ 0x74 ∷ []) ≡ true
        → (bs : List ℕ) × (encode (text (0x66 ∷ 0x6d ∷ 0x74 ∷ [])) ≡ ok bs)
          × (decode bs tolerant ≡ ok (text (0x66 ∷ 0x6d ∷ 0x74 ∷ []))))
string_round_trip_example = string_round_trip (0x66 ∷ 0x6d ∷ 0x74 ∷ []) tolerant (omega arith)

-- A map written with its keys out of order.
abbrev unsorted_map : CborValue
unsorted_map = map (
    entry (text (0x66 ∷ [])) (bool true)
      (entry (int (pos 1)) (array (cons null (cons (int (negsuc 4)) nil))) end))

abbrev unsorted_map_bytes : List ℕ
unsorted_map_bytes = 0xa2 ∷ 0x01 ∷ 0x82 ∷ 0xf6 ∷ 0x24 ∷ 0x61 ∷ 0x66 ∷ 0xf5 ∷ []

encode-unsorted_map : encode unsorted_map ≡ ok unsorted_map_bytes
unfolding encode encode_value write_map sort_keys insert_key has_twin write_keys canonical_key_cmp
    slice_cmp write_head bytes_eq count_items count_entries
encode-unsorted_map = refl

-- The same map with its keys in order, which is what the bytes decode to.
abbrev sorted_map : CborValue
sorted_map = map (
    entry (int (pos 1)) (array (cons null (cons (int (negsuc 4)) nil)))
      (entry (text (0x66 ∷ [])) (bool true) end))

map_bytes-IsByte : All IsByte unsorted_map_bytes
map_bytes-IsByte = (
  omega arith,
  (
    omega arith,
    (omega arith, (omega arith, (omega arith, (omega arith, (omega arith, (omega arith, tt)))))),
  ),
)

decode-sorted_map : decode unsorted_map_bytes strict ≡ ok sorted_map
unfolding decode value decode_item decode_major decode_entries decode_items decode_string
    text_or_bytes valid_utf8 length_argument argument_impl wide_argument take_bytes check_key
    seen_before out_of_order simple all_read canonical_key_cmp slice_cmp bytes_eq
decode-sorted_map = refl

decode_strict_canonical_example : encode sorted_map ≡ ok unsorted_map_bytes
decode_strict_canonical_example =
    decode_strict_canonical unsorted_map_bytes sorted_map map_bytes-IsByte decode-sorted_map
