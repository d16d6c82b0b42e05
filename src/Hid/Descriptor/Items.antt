-- ===== src/Hid/Descriptor/Items.antt =====
-- What a report descriptor says, item by item, against the scan of its bytes.
use fidoh.Base.{
  ℕ, zero, suc, ◌≤◌, ◌==◌, ltb, ◌≡◌, refl, sym, ap, ap₂, ◌∙◌, subst, arith, true, false, ◌≢◌, ◌↔◌,
  ◌⊎◌, inl, inr, List, [], ◌∷◌, ◌++◌, length, length-append, length-take, length-drop, take, drop,
  take-append-drop, take-append_front, drop-append_front, All, ok, err, Bool-cases,
}
use fidoh.Hid.Errors.{FramingError, short_report}
use fidoh.Hid.Descriptor.{
  Scan, initial, size_of, from_le_bytes, short_item, long_length, scan, find_fido_usage,
}

-- An item as the source reads it: a prefix with its payload, or a tag, a size and data of that size. HID 1.11
-- has the size of a long item in front of its tag.
pub data Item : Type 0 where
  short : ℕ → List ℕ → Item
  long : ℕ → List ℕ → Item

-- The prefix of a short item announces the size of its payload, and is not that of a long one.
abbrev pub IsItem : Item → Type 0
IsItem (short prefix payload) = ((prefix == 0xfe) ≡ false) × (length payload ≡ size_of prefix)
IsItem (long tag bytes) = Unit

abbrev pub item_bytes : Item → List ℕ
item_bytes (short prefix payload) = prefix ∷ payload
item_bytes (long tag bytes) = 0xfe ∷ tag ∷ length bytes ∷ bytes

abbrev pub items_bytes : List Item → List ℕ
items_bytes [] = []
items_bytes (i ∷ items) = item_bytes i ++ items_bytes items

-- What an item says to the scan; a long item says nothing.
abbrev pub item_effect : Item → Scan → Scan
item_effect (short prefix payload) s = short_item prefix (from_le_bytes payload) s
item_effect (long tag bytes) s = s

abbrev pub items_effect : List Item → Scan → Scan
items_effect [] s = s
items_effect (i ∷ items) s = items_effect items (item_effect i s)

enough : (n k : ℕ) → n ≤ k → ltb k n ≡ false
enough n k h = ground arith

scan_short :
    (rounds got prefix : ℕ) (payload rest : List ℕ) (s : Scan)
    → IsItem (short prefix payload)
    → scan (suc rounds) got (prefix ∷ payload ++ rest) s
      ≡ scan rounds got rest (short_item prefix (from_le_bytes payload) s)
unfolding scan
scan_short rounds got prefix payload rest s (p, l) =
    let fits : ltb (length (payload ++ rest)) (size_of prefix) ≡ false =
      enough _ _ (omega (arith, length-append payload rest, l)) in
    rw
      (
        p,
        fits,
        take-append_front payload rest (size_of prefix) (sym l),
        drop-append_front payload rest (size_of prefix) (sym l),
      )
      refl

scan_long :
    (rounds got tag : ℕ) (bytes rest : List ℕ) (s : Scan)
    → scan (suc rounds) got (0xfe ∷ tag ∷ length bytes ∷ bytes ++ rest) s ≡ scan rounds got rest s
unfolding scan long_length
scan_long rounds got tag bytes rest s =
    let fits : ltb (length (bytes ++ rest)) (length bytes) ≡ false =
      enough _ _ (omega (arith, length-append bytes rest)) in
    rw (fits, drop-append_front bytes rest (length bytes) refl) refl

scan_items :
    (items : List Item) (rounds got : ℕ) (s : Scan)
    → All IsItem items
    → length (items_bytes items) ≤ rounds
    → scan rounds got (items_bytes items) s ≡ ok ((items_effect items s).found)
unfolding scan
scan_items [] rounds got s h l = refl
scan_items (short prefix payload ∷ items) zero got s h l = absurd (omega arith)
scan_items (short prefix payload ∷ items) (suc rounds) got s (i, h) l =
    scan_short rounds got prefix payload (items_bytes items) s i
    ∙ scan_items items rounds got _ h (omega (arith, length-append payload (items_bytes items)))
scan_items (long tag bytes ∷ items) zero got s h l = absurd (omega arith)
scan_items (long tag bytes ∷ items) (suc rounds) got s (i, h) l =
    scan_long rounds got tag bytes (items_bytes items) s
    ∙ scan_items items rounds got s h (omega (arith, length-append bytes (items_bytes items)))

-- A descriptor of whole items, each with the payload that its prefix announces, is scanned without an
-- error, and its match is what the items say one after the other.
pub find_fido_usage_reads :
    (items : List Item)
    → All IsItem items
    → find_fido_usage (items_bytes items) ≡ ok ((items_effect items initial).found)
find_fido_usage_reads items h = scan_items items _ _ initial h (omega arith)

-- Bytes that are whole items.
abbrev pub IsWhole : List ℕ → Type 0
IsWhole bytes = (items : List Item) × All IsItem items × (items_bytes items ≡ bytes)

IsWhole-short :
    (prefix : ℕ) (rest : List ℕ)
    → (prefix == 0xfe) ≡ false
    → ltb (length rest) (size_of prefix) ≡ false
    → IsWhole (drop (size_of prefix) rest)
    → IsWhole (prefix ∷ rest)
IsWhole-short prefix rest p l (items, h, e) =
    let payload = take (size_of prefix) rest in
    (
      short prefix payload ∷ items,
      ((p, ground (arith, length-take (size_of prefix) rest)), h),
      ap (λ t. prefix ∷ t) (ap (λ t. payload ++ t) e ∙ take-append-drop (size_of prefix) rest),
    )

IsWhole-long :
    (prefix tag len : ℕ) (rest : List ℕ)
    → (prefix == 0xfe) ≡ true
    → ltb (length rest) len ≡ false
    → IsWhole (drop len rest)
    → IsWhole (prefix ∷ tag ∷ len ∷ rest)
IsWhole-long prefix tag len rest p l (items, h, e) =
    let bytes = take len rest in
    let first : 0xfe ≡ prefix = ground arith in
    let size : length bytes ≡ len = ground (arith, length-take len rest) in
    (
      long tag bytes ∷ items,
      (tt, h),
      ap₂ (λ a t. a ∷ tag ∷ t) first
          (ap₂ (λ b t. b ∷ t) size (ap (λ t. bytes ++ t) e ∙ take-append-drop len rest)),
    )

long_splits :
    (rounds got prefix : ℕ) (rest : List ℕ) (s : Scan)
    → (prefix == 0xfe) ≡ true
    → ((k : ℕ)
        → IsWhole (drop k (drop 2 rest))
          ⊎ (scan rounds got (drop k (drop 2 rest)) s ≡ err (short_report got)))
    → IsWhole (prefix ∷ rest) ⊎ (scan (suc rounds) got (prefix ∷ rest) s ≡ err (short_report got))
unfolding scan long_length
long_splits rounds got prefix [] s p f = inr (rw p refl)
long_splits rounds got prefix (tag ∷ []) s p f = inr (rw p refl)
long_splits rounds got prefix (tag ∷ len ∷ rest) s p f = elim (Bool-cases (ltb (length rest) len)) [
  | inl l ↦ inr (rw (p, l) refl)
  | inr l ↦ elim (f len) [
    | inl w ↦ inl (IsWhole-long prefix tag len rest p l w)
    | inr e ↦ inr (rw (p, l) e)
  ]
]

short_splits :
    (rounds got prefix : ℕ) (rest : List ℕ) (s : Scan)
    → (prefix == 0xfe) ≡ false
    → ((t : Scan)
        → IsWhole (drop (size_of prefix) rest)
          ⊎ (scan rounds got (drop (size_of prefix) rest) t ≡ err (short_report got)))
    → IsWhole (prefix ∷ rest) ⊎ (scan (suc rounds) got (prefix ∷ rest) s ≡ err (short_report got))
unfolding scan
short_splits rounds got prefix rest s p f = elim (Bool-cases (ltb (length rest) (size_of prefix))) [
  | inl l ↦ inr (rw (p, l) refl)
  | inr l ↦ elim (f (short_item prefix (from_le_bytes (take (size_of prefix) rest)) s)) [
    | inl w ↦ inl (IsWhole-short prefix rest p l w)
    | inr e ↦ inr (rw (p, l) e)
  ]
]

scan_splits :
    (rounds got : ℕ) (bytes : List ℕ) (s : Scan)
    → length bytes ≤ rounds
    → IsWhole bytes ⊎ (scan rounds got bytes s ≡ err (short_report got))
scan_splits rounds got [] s h = inl ([], tt, refl)
scan_splits zero got (prefix ∷ rest) s h = absurd (omega arith)
scan_splits (suc rounds) got (prefix ∷ rest) s h = elim (Bool-cases (prefix == 0xfe)) [
  | inl p ↦ long_splits rounds got prefix rest s p (λ k.
      scan_splits rounds got (drop k (drop 2 rest)) s
        (omega (arith, length-drop k (drop 2 rest), length-drop 2 rest)))
  | inr p ↦ short_splits rounds got prefix rest s p (λ t.
      scan_splits rounds got (drop (size_of prefix) rest) t
        (omega (arith, length-drop (size_of prefix) rest)))
]

whole_ok : (bytes : List ℕ) (e : FramingError) → IsWhole bytes → find_fido_usage bytes ≢ err e
whole_ok bytes e (items, h, b) r =
    let read : find_fido_usage bytes ≡ ok ((items_effect items initial).found) =
      subst (λ t. find_fido_usage t ≡ ok ((items_effect items initial).found)) b
        (find_fido_usage_reads items h) in
    absurd (cc (r, read))

-- The scan ends with ShortReport and the length of the descriptor exactly when the descriptor is not
-- made of whole items.
pub find_fido_usage_refuses :
    (bytes : List ℕ)
    → (find_fido_usage bytes ≡ err (short_report (length bytes))) ↔ (¬ IsWhole bytes)
find_fido_usage_refuses bytes = (
  λ r w. whole_ok bytes _ w r,
  λ no. elim (scan_splits (length bytes) (length bytes) bytes initial (omega arith)) [
    | inl w ↦ absurd (no w)
    | inr r ↦ r
  ],
)
