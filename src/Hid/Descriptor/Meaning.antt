-- ===== src/Hid/Descriptor/Meaning.antt =====
-- What the items of a report descriptor mean by the tables of HID 1.11, 6.2.2, against the scan of
-- descriptor.rs.
use fidoh.Base.{
  ℕ, zero, suc, ◌+◌, ◌*◌, ◌/◌, ◌%◌, ◌<◌, ◌==◌, ltb, ◌≡◌, ◌≢◌, refl, ap, ◌∙◌, arith, Bool, true,
  false, if◌then◌else◌, ◌&&◌, ◌||◌, List, [], ◌∷◌, All, Bool-cases, inl, inr, ok, Option, none,
  some,
}
use fidoh.Hid.Descriptor.{
  Globals, Scan, initial, size_of, from_le_bytes, split_usage, popped, global_item, usage_item,
  output_item, short_item, find_fido_usage,
}
use fidoh.Hid.Descriptor.Items.{
  Item, short, long, IsItem, items_bytes, items_effect, find_fido_usage_reads,
}

-- The items that the scan looks at.
pub data Tag : Type 0 where
  usage_page push pop report_size report_count usage output : Tag

-- The prefix of an item without a payload.
abbrev pub prefix_of : Tag → ℕ
prefix_of usage_page = 0x04
prefix_of push = 0xa4
prefix_of pop = 0xb4
prefix_of report_size = 0x74
prefix_of report_count = 0x94
prefix_of usage = 0x08
prefix_of output = 0x90

-- A payload of 0, 1, 2 or 4 bytes: the code of its size in a prefix, its number, and its bytes.
pub data Payload : Type 0 where
  nil : Payload
  one_byte : ℕ → Payload
  two_bytes : ℕ → ℕ → Payload
  four_bytes : ℕ → ℕ → ℕ → ℕ → Payload

abbrev pub size_code : Payload → ℕ
size_code nil = 0
size_code (one_byte a) = 1
size_code (two_bytes a b) = 2
size_code (four_bytes a b c d) = 3

abbrev pub number : Payload → ℕ
number nil = 0
number (one_byte a) = a
number (two_bytes a b) = a + 256 * b
number (four_bytes a b c d) = a + 256 * (b + 256 * (c + 256 * d))

abbrev pub payload_bytes : Payload → List ℕ
payload_bytes nil = []
payload_bytes (one_byte a) = a ∷ []
payload_bytes (two_bytes a b) = a ∷ b ∷ []
payload_bytes (four_bytes a b c d) = a ∷ b ∷ c ∷ d ∷ []

-- An item of the table, a short item that is not in it, by its prefix without the size, or a long item in
-- the layout that the source reads.
pub data Said : Type 0 where
  tagged : Tag → Payload → Said
  plain : ℕ → Payload → Said
  skipped : ℕ → List ℕ → Said

-- A prefix that is none of the table's, nor that of a long item, with its two low bits free.
abbrev pub IsSaid : Said → Type 0
IsSaid (tagged t p) = Unit
IsSaid (plain prefix p) = (prefix < 0xfc) × (prefix % 4 ≡ 0) × ((t : Tag) → prefix ≢ prefix_of t)
IsSaid (skipped tag body) = Unit

abbrev pub item_of : Said → Item
item_of (tagged t p) = short (prefix_of t + size_code p) (payload_bytes p)
item_of (plain prefix p) = short (prefix + size_code p) (payload_bytes p)
item_of (skipped tag body) = long tag body

abbrev pub items_of : List Said → List Item
items_of [] = []
items_of (i ∷ items) = item_of i ∷ items_of items

-- A usage: in 16 bits it is one of the page in force, beyond it carries its page in its upper half.
abbrev pub is_ctaphid : (page : ℕ) → ℕ → Bool
is_ctaphid page n =
    if ltb n 0x10000
    then (page == 0xf1d0) && (n == 0x01)
    else (n / 0x10000 == 0xf1d0) && (n % 0x10000 == 0x01)

-- The bytes of an output report of so many fields of so many bits, if there are any.
abbrev pub report_bytes : (size count : ℕ) → Option ℕ → Option ℕ
report_bytes size count (some n) = some n
report_bytes zero count none = none
report_bytes (suc size) zero none = none
report_bytes (suc size) (suc count) none = some (suc size * suc count / 8)

abbrev pub restored : List Globals → Globals → Globals
restored [] g = g
restored (h ∷ stack) g = h

abbrev pub rest_of : List Globals → List Globals
rest_of [] = []
rest_of (h ∷ stack) = stack

-- What an item of the table means, with the number of its payload.
abbrev pub meaning : Tag → ℕ → Scan → Scan
meaning usage_page n s = record s {
  globals = record s.globals { page = n };
  found = record s.found { page = s.found.page || (n == 0xf1d0) };
}
meaning push n s = record s { stack = s.globals ∷ s.stack }
meaning pop n s = record s { globals = restored s.stack s.globals; stack = rest_of s.stack }
meaning report_size n s = record s { globals = record s.globals { report_size = n } }
meaning report_count n s = record s { globals = record s.globals { report_count = n } }
meaning usage n s = record s {
  found = record s.found {
    page = s.found.page || is_ctaphid s.globals.page n;
    usage = s.found.usage || is_ctaphid s.globals.page n;
  };
}
meaning output n s = record s {
  found = record s.found {
    output_report_size =
        report_bytes s.globals.report_size s.globals.report_count s.found.output_report_size;
  };
}

abbrev pub meanings : List Said → Scan → Scan
meanings [] s = s
meanings (tagged t p ∷ items) s = meanings items (meaning t (number p) s)
meanings (plain prefix p ∷ items) s = meanings items s
meanings (skipped tag body ∷ items) s = meanings items s

number_read : (p : Payload) → from_le_bytes (payload_bytes p) ≡ number p
unfolding from_le_bytes
number_read nil = refl
number_read (one_byte a) = omega arith
number_read (two_bytes a b) = omega arith
number_read (four_bytes a b c d) = omega arith

code_small : (p : Payload) → size_code p < 4
code_small nil = omega arith
code_small (one_byte a) = omega arith
code_small (two_bytes a b) = omega arith
code_small (four_bytes a b c d) = omega arith

-- A scan by its parts.
abbrev of_parts : Globals → List Globals → Bool → Bool → Option ℕ → Scan
of_parts g stack page matched size = record {
  globals = g;
  stack = stack;
  found = record { page = page; usage = matched; output_report_size = size };
}

popped_means :
    (stack : List Globals) (g : Globals) (page matched : Bool) (size : Option ℕ) (n : ℕ)
    → popped stack (of_parts g stack page matched size)
      ≡ meaning pop n (of_parts g stack page matched size)
unfolding popped
popped_means [] g page matched size n = refl
popped_means (h ∷ stack) g page matched size n = refl

marked :
    (c : Bool) (stack : List Globals) (g : Globals) (page matched : Bool) (size : Option ℕ)
    → (if c then of_parts g stack true true size else of_parts g stack page matched size)
      ≡ of_parts g stack (page || c) (matched || c) size
marked true stack g true true size = refl
marked true stack g true false size = refl
marked true stack g false true size = refl
marked true stack g false false size = refl
marked false stack g true true size = refl
marked false stack g true false size = refl
marked false stack g false true size = refl
marked false stack g false false size = refl

usage_means : (n : ℕ) (s : Scan) → usage_item (split_usage n s.globals.page) n s ≡ meaning usage n s
unfolding usage_item split_usage
usage_means n s = elim (Bool-cases (n / 65536 == 0)) [
  | inl low ↦
      let small : ltb n 65536 ≡ true = ground (arith, low) in
      rw (low, small)
        (marked _ s.stack s.globals s.found.page s.found.usage s.found.output_report_size)
  | inr high ↦
      let large : ltb n 65536 ≡ false = ground (arith, high) in
      rw (high, large)
        (marked _ s.stack s.globals s.found.page s.found.usage s.found.output_report_size)
]

output_means :
    (size count page : ℕ) (stack : List Globals) (declared matched : Bool) (o : Option ℕ) (n : ℕ)
    → (let s =
          of_parts
            (record { page = page; report_size = size; report_count = count })
            stack
            declared
            matched
            o in
        output_item o s ≡ meaning output n s)
unfolding output_item
output_means size count page stack declared matched (some m) n = refl
output_means zero count page stack declared matched none n = refl
output_means (suc size) zero page stack declared matched none n =
    (let positive : ltb 0 (suc size) ≡ true = ground arith in rw positive refl)
output_means (suc size) (suc count) page stack declared matched none n =
    (let positive : ltb 0 (suc size) && ltb 0 (suc count) ≡ true = ground arith in rw positive refl)

by_table : (t : Tag) (n : ℕ) (s : Scan) → short_item (prefix_of t) n s ≡ meaning t n s
unfolding short_item global_item
by_table usage_page n s = refl
by_table push n s = refl
by_table pop n s =
    popped_means s.stack s.globals s.found.page s.found.usage s.found.output_report_size n
by_table report_size n s = refl
by_table report_count n s = refl
by_table usage n s = usage_means n s
by_table output n s =
    output_means s.globals.report_size s.globals.report_count s.globals.page s.stack s.found.page
      s.found.usage s.found.output_report_size n

-- The two bits of the size play no part.
size_free :
    (prefix c n : ℕ) (s : Scan)
    → c < 4
    → prefix % 4 ≡ 0
    → short_item (prefix + c) n s ≡ short_item prefix n s
unfolding short_item
size_free prefix c n s h e =
    let same_type : (prefix + c) / 4 % 4 ≡ prefix / 4 % 4 = omega arith in
    let same_tag : (prefix + c) / 16 % 16 ≡ prefix / 16 % 16 = omega arith in
    rw (same_type, same_tag) refl

aligned : (t : Tag) → prefix_of t % 4 ≡ 0
aligned usage_page = refl
aligned push = refl
aligned pop = refl
aligned report_size = refl
aligned report_count = refl
aligned usage = refl
aligned output = refl

low : (t : Tag) → prefix_of t < 0xfc
low usage_page = omega arith
low push = omega arith
low pop = omega arith
low report_size = omega arith
low report_count = omega arith
low usage = omega arith
low output = omega arith

plain_silent :
    (prefix n : ℕ) (s : Scan)
    → prefix < 0xfc
    → prefix % 4 ≡ 0
    → ((t : Tag) → prefix ≢ prefix_of t)
    → short_item prefix n s ≡ s
unfolding short_item global_item
plain_silent prefix n s h e other = ground (
  arith,
  h,
  e,
  other usage_page,
  other push,
  other pop,
  other report_size,
  other report_count,
  other usage,
  other output,
)

IsItem-size :
    (prefix : ℕ) (p : Payload)
    → prefix < 0xfc
    → prefix % 4 ≡ 0
    → IsItem (short (prefix + size_code p) (payload_bytes p))
unfolding size_of
IsItem-size prefix nil h e = (ground arith, ground arith)
IsItem-size prefix (one_byte a) h e = (ground arith, ground arith)
IsItem-size prefix (two_bytes a b) h e = (ground arith, ground arith)
IsItem-size prefix (four_bytes a b c d) h e = (ground arith, ground arith)

items_of-IsItem : (items : List Said) → All IsSaid items → All IsItem (items_of items)
items_of-IsItem [] h = tt
items_of-IsItem (tagged t p ∷ items) (i, h) =
    (IsItem-size (prefix_of t) p (low t) (aligned t), items_of-IsItem items h)
items_of-IsItem (plain prefix p ∷ items) (i, h) =
    (IsItem-size prefix p i.0 i.1, items_of-IsItem items h)
items_of-IsItem (skipped tag body ∷ items) (i, h) = (tt, items_of-IsItem items h)

effects_mean :
    (items : List Said) (s : Scan)
    → All IsSaid items
    → items_effect (items_of items) s ≡ meanings items s
effects_mean [] s h = refl
effects_mean (tagged t p ∷ items) s (i, h) =
    ap (items_effect (items_of items)) (
      ap (λ n. short_item (prefix_of t + size_code p) n s) (number_read p)
      ∙ (size_free (prefix_of t) (size_code p) (number p) s (code_small p) (aligned t)
          ∙ by_table t (number p) s))
    ∙ effects_mean items (meaning t (number p) s) h
effects_mean (plain prefix p ∷ items) s ((l, e, o), h) =
    ap (items_effect (items_of items)) (
      size_free prefix (size_code p) (from_le_bytes (payload_bytes p)) s (code_small p) e
      ∙ plain_silent prefix (from_le_bytes (payload_bytes p)) s l e o)
    ∙ effects_mean items s h
effects_mean (skipped tag body ∷ items) s (i, h) = effects_mean items s h

-- A descriptor of items of the table, of other short items and of long items in the layout that the
-- source reads is scanned without an error, and its match is what the items mean one after the other: pages
-- in force, pushed and popped, CTAPHID usages under the FIDO page, and the first output report with a
-- size.
pub find_fido_usage_means :
    (items : List Said)
    → All IsSaid items
    → find_fido_usage (items_bytes (items_of items)) ≡ ok ((meanings items initial).found)
find_fido_usage_means items h =
    find_fido_usage_reads (items_of items) (items_of-IsItem items h)
    ∙ ap (λ s. ok (s.found)) (effects_mean items initial h)
