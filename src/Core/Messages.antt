-- ===== src/Core/Messages.antt =====
-- crates/fidoh-core: what the message models share, from cose.rs, get_info.rs and get_assertion.rs:
-- reading a member, and the loop over the entries of a map. A String is held as its UTF-8.
pub mod Cose
pub mod Pin
pub mod GetInfo
pub mod GetAssertion
pub mod Ignored
pub mod RoundTrip
pub mod RequestTrip
pub mod Distinct
pub mod Accepted
pub mod Examples
use Prim.Native.Char.{Char, code}
use Prim.Native.String.{String, [] as []ˢ, ◌∷◌ as ◌∷ˢ◌}
use fidoh.Base.{
  ℕ, ◌^◌, ltb, if◌then◌else◌, Bool, List, [], ◌∷◌, Outcome, ok, err, ◌>>=◌, Option, none, some, map,
}
use fidoh.Core.Cbor.{
  ℤ, pos, negsuc, CborValue, int, bytes, text, array, map as mapᶜ, bool, Items, nil, cons, Entries,
  end, entry,
}
use fidoh.Core.Cbor.Decode.{DecodeError, type_mismatch, missing_member, invalid_value}

-- The UTF-8 of a text of ASCII characters.
abbrev pub ascii : String → List ℕ
ascii []ˢ = []
ascii (c ∷ˢ s) = code c ∷ ascii s

-- What a message model reads from a value.
abbrev pub Reads : Type 0 → Type 0
Reads A = Outcome DecodeError A

-- `int_member`.
unfoldable pub int_member : CborValue → String → Reads ℤ
int_member (int n) member = ok n
int_member v member = err (type_mismatch member "integer")

-- `bytes_member`.
unfoldable pub bytes_member : CborValue → String → Reads (List ℕ)
bytes_member (bytes b) member = ok b
bytes_member v member = err (type_mismatch member "byte string")

-- `text_member`.
unfoldable pub text_member : CborValue → String → Reads (List ℕ)
text_member (text s) member = ok s
text_member v member = err (type_mismatch member "text string")

-- `bool_member`.
unfoldable pub bool_member : CborValue → String → Reads Bool
bool_member (bool b) member = ok b
bool_member v member = err (type_mismatch member "boolean")

-- An unsigned integer that has to be below a bound.
unfoldable pub below : ℕ → ℕ → String → Reads ℕ
below bound n member = if ltb n bound then ok n else err (invalid_value member)

-- `uint_member`.
unfoldable pub uint_member : CborValue → String → Reads ℕ
unfolding below
uint_member (int (pos n)) member = below (2 ^ 64) n member
uint_member v member = err (type_mismatch member "unsigned integer")

-- The loop over the items of an array, with what reads one of them.
unfoldable pub read_items {ℓ} :
    {A : Type ℓ} → (CborValue → Outcome DecodeError A) → Items → Outcome DecodeError (List A)
read_items f nil = ok []
read_items f (cons v items) = f v >>= λ a. read_items f items >>= λ as'. ok (a ∷ as')

unfoldable pub text_item : String → CborValue → Reads (List ℕ)
text_item member (text s) = ok s
text_item member v = err (type_mismatch member "array of text strings")

-- `text_array`.
unfoldable pub text_array : CborValue → String → Reads (List (List ℕ))
unfolding text_item
text_array (array items) member = read_items (text_item member) items
text_array v member = err (type_mismatch member "array")

-- `uint_array`.
unfoldable pub uint_array : CborValue → String → Reads (List ℕ)
uint_array (array items) member = read_items (λ v. uint_member v member) items
uint_array v member = err (type_mismatch member "array of unsigned integers")

-- `value.ok_or(DecodeError::MissingMember { .. })`.
unfoldable pub required {ℓ} : {A : Type ℓ} → Option A → String → Outcome DecodeError A
required (some a) member = ok a
required none member = err (missing_member member)

-- The entries of a value that has to be a map.
unfoldable pub entries_of : CborValue → String → Reads Entries
entries_of (mapᶜ entries) member = ok entries
entries_of v member = err (type_mismatch member "map")

module _ {S : Type 0} where
  -- The loop over the entries of a map, with what it does with one of them.
  unfoldable pub read_entries : (CborValue → CborValue → S → Reads S) → Entries → S → Reads S
  read_entries f end s = ok s
  read_entries f (entry k v entries) s = f k v s >>= read_entries f entries

  -- The arm for a key that is not a non-negative integer is `continue`.
  unfoldable pub by_number : (ℕ → CborValue → S → Reads S) → CborValue → CborValue → S → Reads S
  by_number f (int (pos n)) v s = f n v s
  by_number f k v s = ok s

  -- The same of a key that is not a text.
  unfoldable pub by_text : (List ℕ → CborValue → S → Reads S) → CborValue → CborValue → S → Reads S
  by_text f (text t) v s = f t v s
  by_text f k v s = ok s

-- A list of values and of entries, as the models build them.
unfoldable pub items_of {ℓ} : {A : Type ℓ} → (A → CborValue) → List A → Items
items_of f [] = nil
items_of f (a ∷ as') = cons (f a) (items_of f as')

-- `if let Some(a) = member { entries.push((key, f(a))) }`, before the entries that are pushed later.
unfoldable pub member {ℓ} : {A : Type ℓ} → ℕ → (A → CborValue) → Option A → Entries → Entries
member key f none later = later
member key f (some a) later = entry (int (pos key)) (f a) later

unfoldable pub text_entry {ℓ} :
    {A : Type ℓ} → String → (A → CborValue) → Option A → Entries → Entries
text_entry key f none later = later
text_entry key f (some a) later = entry (text (ascii key)) (f a) later
