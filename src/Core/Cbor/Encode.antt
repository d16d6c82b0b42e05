-- ===== src/Core/Cbor/Encode.antt =====
-- crates/fidoh-core/src/cbor.rs: the canonical encoder. What the source appends to `out` is
-- returned.
use Prim.Native.Nat.{Ordering, compare}
use fidoh.Base.{
  ℕ, ◌+◌, ◌*◌, ◌%◌, ◌^◌, List, [], ◌∷◌, ◌++◌, length, to_be_bytes, bit_or, ltb, leb, if◌then◌else◌,
  Bool, true, false, ◌||◌, bytes_eq, Outcome, ok, err, ◌>>=◌,
}
use fidoh.Core.Cbor.{
  pos, negsuc, CborValue, int, bytes, text, array, map, bool, null, Items, nil, cons, Entries, end,
  entry, count_items, count_entries, max_depth,
}

pub data InvalidRequest : Type 0 where
  uv_option_with_pin_uv_auth_param empty_allow_list empty_permissions : InvalidRequest

pub data EncodeError : Type 0 where
  depth_limit_exceeded duplicate_key : EncodeError
  invalid_request : InvalidRequest → EncodeError

-- `write_head`, for a u8 and a u64.
unfoldable pub write_head : ℕ → ℕ → List ℕ
write_head major arg =
    let mt = major * 32 % 256 in
    if ltb arg 24
    then bit_or mt arg ∷ []
    else if leb arg 0xff
    then bit_or mt 24 ∷ to_be_bytes 1 arg
    else if leb arg 0xffff
    then bit_or mt 25 ∷ to_be_bytes 2 arg
    else if leb arg 0xffff_ffff
    then bit_or mt 26 ∷ to_be_bytes 4 arg
    else bit_or mt 27 ∷ to_be_bytes 8 arg

-- `Ordering::then_with`.
abbrev pub then_with : Ordering → Ordering → Ordering
then_with Ordering.lt o = Ordering.lt
then_with Ordering.eq o = o
then_with Ordering.gt o = Ordering.gt

-- The `cmp` of byte slices.
unfoldable pub slice_cmp : List ℕ → List ℕ → Ordering
slice_cmp [] [] = Ordering.eq
slice_cmp [] (b ∷ bs) = Ordering.lt
slice_cmp (a ∷ xs) [] = Ordering.gt
slice_cmp (a ∷ xs) (b ∷ bs) = then_with (compare a b) (slice_cmp xs bs)

-- `canonical_key_cmp`.
unfoldable pub canonical_key_cmp : List ℕ → List ℕ → Ordering
canonical_key_cmp a b = then_with (compare (length a) (length b)) (slice_cmp a b)

-- An encoded key with what encoding its value comes to.
abbrev pub Keyed : Type 0
Keyed = List ℕ × Outcome EncodeError (List ℕ)

-- `keys.sort_by(..)`, a stable sort.
unfoldable pub insert_key : Keyed → List Keyed → List Keyed
insert_key p [] = p ∷ []
insert_key p (q ∷ qs) =
    let rest = insert_key p qs in
    elim (canonical_key_cmp p.0 q.0) [ Ordering.gt ↦ q ∷ rest | _ ↦ p ∷ q ∷ qs ]

unfoldable pub sort_keys : List Keyed → List Keyed
sort_keys [] = []
sort_keys (p ∷ ps) = insert_key p (sort_keys ps)

-- `for pair in keys.windows(2)`.
unfoldable pub has_twin : List Keyed → Bool
has_twin [] = false
has_twin (p ∷ []) = false
has_twin (p ∷ q ∷ qs) = bytes_eq p.0 q.0 || has_twin (q ∷ qs)

-- The last loop over the keys.
unfoldable pub write_keys : List Keyed → Outcome EncodeError (List ℕ)
write_keys [] = ok []
write_keys ((key, value) ∷ keys) =
    let rest = write_keys keys in value >>= λ v. rest >>= λ r. ok (key ++ v ++ r)

unfoldable pub write_map : ℕ → List Keyed → Outcome EncodeError (List ℕ)
write_map count keys =
    if has_twin (sort_keys keys)
    then err duplicate_key
    else write_keys (sort_keys keys) >>= λ body. ok (write_head 5 count ++ body)

-- `encode_value`; `as u64` keeps the low 64 bits of an integer.
unfoldable mutual
  pub encode_value : CborValue → ℕ → Outcome EncodeError (List ℕ)
  encode_value (int (pos n)) depth = ok (write_head 0 (n % 2 ^ 64))
  encode_value (int (negsuc n)) depth = ok (write_head 1 (n % 2 ^ 64))
  encode_value (bytes b) depth = ok (write_head 2 (length b) ++ b)
  encode_value (text s) depth = ok (write_head 3 (length s) ++ s)
  encode_value (array items) depth =
      let written = encode_items items (depth + 1) in
      if leb max_depth depth
      then err depth_limit_exceeded
      else written >>= λ body. ok (write_head 4 (count_items items) ++ body)
  encode_value (map entries) depth =
      let keyed = encode_keys entries (depth + 1) in
      if leb max_depth depth
      then err depth_limit_exceeded
      else keyed >>= write_map (count_entries entries)
  encode_value (bool false) depth = ok (0xf4 ∷ [])
  encode_value (bool true) depth = ok (0xf5 ∷ [])
  encode_value null depth = ok (0xf6 ∷ [])

  pub encode_items : Items → ℕ → Outcome EncodeError (List ℕ)
  encode_items nil depth = ok []
  encode_items (cons v items) depth =
      let first = encode_value v depth in
      let rest = encode_items items depth in first >>= λ f. rest >>= λ r. ok (f ++ r)

  -- The first loop over the entries.
  pub encode_keys : Entries → ℕ → Outcome EncodeError (List Keyed)
  encode_keys end depth = ok []
  encode_keys (entry k v entries) depth =
      let key = encode_value k depth in
      let value = encode_value v depth in
      let rest = encode_keys entries depth in key >>= λ b. rest >>= λ ks. ok ((b, value) ∷ ks)

-- `CborValue::encode`.
unfoldable pub encode : CborValue → Outcome EncodeError (List ℕ)
encode value = encode_value value 0
