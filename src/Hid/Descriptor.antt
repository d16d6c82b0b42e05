-- ===== src/Hid/Descriptor.antt =====
-- crates/fidoh-transport-hid/src/descriptor.rs: the scan of a HID report descriptor for the FIDO usage.
pub mod Items
pub mod Meaning
mod Examples
use fidoh.Base.{
  ℕ, zero, suc, ◌+◌, ◌*◌, ◌/◌, ◌%◌, ◌==◌, ltb, if◌then◌else◌, Bool, true, false, ◌&&◌, ◌||◌, List,
  [], ◌∷◌, length, take, drop, Outcome, ok, err, Option, none, some,
}
use fidoh.Hid.Errors.{FramingError, short_report}

abbrev pub fido_usage_page : ℕ
fido_usage_page = 0xf1d0

abbrev pub ctaphid_usage : ℕ
ctaphid_usage = 0x0001

pub record Globals : Type 0 where
  pub page : ℕ
  pub report_size : ℕ
  pub report_count : ℕ

pub record FidoMatch : Type 0 where
  pub page : Bool
  pub usage : Bool
  pub output_report_size : Option ℕ

-- `FidoMatch::is_fido`.
abbrev pub is_fido : FidoMatch → Bool
is_fido m = m.page && m.usage

-- The local variables of `find_fido_usage`, without the position.
pub record Scan : Type 0 where
  pub globals : Globals
  pub stack : List Globals
  pub found : FidoMatch

abbrev pub initial : Scan
initial = record {
  globals = record { page = 0; report_size = 0; report_count = 0 };
  stack = [];
  found = record { page = false; usage = false; output_report_size = none };
}

-- The payload size in a prefix.
unfoldable pub size_of : ℕ → ℕ
size_of prefix =
    if prefix % 4 == 0 then 0 else if prefix % 4 == 1 then 1 else if prefix % 4 == 2 then 2 else 4

-- `from_le_bytes`.
unfoldable pub from_le_bytes : List ℕ → ℕ
from_le_bytes [] = 0
from_le_bytes (b ∷ bytes) = b + 256 * from_le_bytes bytes

-- `split_usage`.
unfoldable pub split_usage : (unsigned active_page : ℕ) → Option (ℕ × ℕ)
split_usage unsigned active_page =
    if unsigned / 65536 == 0
    then some (active_page, unsigned)
    else some (unsigned / 65536, unsigned % 65536)

-- A Global item: Usage Page, Push, Pop, Report Size or Report Count.
unfoldable pub popped : List Globals → Scan → Scan
popped [] s = s
popped (g ∷ stack) s = record s { globals = g; stack = stack }

unfoldable pub global_item : (tag unsigned : ℕ) → Scan → Scan
global_item tag unsigned s =
    if tag == 0x00
    then record s {
      globals = record s.globals { page = unsigned };
      found = record s.found { page = s.found.page || (unsigned == fido_usage_page) };
    }
    else if tag == 0x0a
    then record s { stack = s.globals ∷ s.stack }
    else if tag == 0x0b
    then popped s.stack s
    else if tag == 0x07
    then record s { globals = record s.globals { report_size = unsigned } }
    else if tag == 0x09
    then record s { globals = record s.globals { report_count = unsigned } }
    else s

-- A Usage item under its page.
unfoldable pub usage_item : Option (ℕ × ℕ) → (unsigned : ℕ) → Scan → Scan
usage_item split unsigned s =
    let resolved : ℕ × ℕ = elim split [ some pair ↦ pair | none ↦ (s.globals.page, unsigned) ] in
    let (usage_page, usage) = resolved in
    if (usage_page == fido_usage_page) && (usage == ctaphid_usage)
    then record s { found = record s.found { page = true; usage = true } }
    else s

-- An Output item, of which the first with a size counts.
unfoldable pub output_item : Option ℕ → Scan → Scan
output_item (some n) s = s
output_item none s =
    if ltb 0 s.globals.report_size && ltb 0 s.globals.report_count
    then record s {
      found = record s.found {
        output_report_size = some (s.globals.report_size * s.globals.report_count / 8);
      };
    }
    else s

-- The `match` on the type and the tag of a short item.
unfoldable pub short_item : (prefix unsigned : ℕ) → Scan → Scan
short_item prefix unsigned s =
    let ty = prefix / 4 % 4 in
    let tag = prefix / 16 % 16 in
    if ty == 1
    then global_item tag unsigned s
    else if (ty == 2) && (tag == 0x00)
    then usage_item (split_usage unsigned s.globals.page) unsigned s
    else if (ty == 0) && (tag == 0x09)
    then output_item s.found.output_report_size s
    else s

-- The length of the data of a long item, by the bytes behind its prefix.
unfoldable pub long_length : List ℕ → Option ℕ
long_length (tag ∷ len ∷ rest) = if ltb (length rest) len then none else some len
long_length _ = none

-- The loop of `find_fido_usage` on what is left of a descriptor of `got` bytes, from at least as many
-- rounds as there are bytes left.
unfoldable pub scan : (rounds got : ℕ) → List ℕ → Scan → Outcome FramingError FidoMatch
scan rounds got [] s = ok s.found
scan zero got (prefix ∷ rest) s = err (short_report got)
scan (suc rounds) got (prefix ∷ rest) s =
    if prefix == 0xfe
    then elim (long_length rest) [
      | none ↦ err (short_report got)
      | some len ↦ scan rounds got (drop len (drop 2 rest)) s
    ]
    else if ltb (length rest) (size_of prefix)
    then err (short_report got)
    else scan rounds got (drop (size_of prefix) rest)
        (short_item prefix (from_le_bytes (take (size_of prefix) rest)) s)

-- `find_fido_usage`.
abbrev pub find_fido_usage : List ℕ → Outcome FramingError FidoMatch
find_fido_usage descriptor = scan (length descriptor) (length descriptor) descriptor initial
