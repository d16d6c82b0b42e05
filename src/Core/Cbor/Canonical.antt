-- ===== src/Core/Cbor/Canonical.antt =====
-- Strict decoding in cbor.rs accepts one encoding of a value: the one that `encode` writes.
use Prim.Native.Nat.{Ordering}
use fidoh.Base.{
  ℕ, zero, suc, ◌-◌, ◌≡◌, refl, sym, ap, ◌∙◌, arith, List, [], ◌∷◌, ◌++◌, length, take, false, ok,
  All, IsByte, Bool-cases, inl, inr, take-append_front, append_assoc, length-append, subst, Option,
  none, some, bytes_eq, bytes_eq_sound,
}
use fidoh.Core.Cbor.{CborValue, Items, cons, Entries, entry, count_items, count_entries}
use fidoh.Core.Cbor.Encode.{
  encode_value, encode_items, encode_keys, Keyed, canonical_key_cmp, slice_cmp, insert_key,
  sort_keys, has_twin, write_keys,
}
use fidoh.Core.Cbor.Decode.{
  strict, Decoder, Decoded, decode_items, decode_entries, check_key, seen_before, out_of_order,
}
use fidoh.Core.Cbor.Minimal.{bind_ok, guard_ok, Consumed}

pub Consumed-trans :
    {d e f : Decoder} {u w : List ℕ} → Consumed d e u → Consumed e f w → Consumed d f (u ++ w)
Consumed-trans {d = d} {e = e} {f = f} {u = u} {w = w} a b = record {
  input = a.input ∙ ap (λ t. u ++ t) b.input ∙ sym (append_assoc u w f.rest);
  moved = omega (arith, length-append u w, a.moved, b.moved);
  left = b.left;
}

pub ok_pair :
    {A : Type 0} {a c : A} {b d : Decoder}
    → ◌≡◌ {A = Decoded A} (ok (a, b)) (ok (c, d))
    → (a ≡ c) × (b ≡ d)
ok_pair h = (cc, cc)

-- A state in which nothing was consumed.
pub Consumed-refl : {d d' : Decoder} → d ≡ d' → All IsByte d.rest → Consumed d d' []
Consumed-refl s y = record {
  input = ap (λ (x : Decoder). x.rest) s;
  moved = omega (arith, ap (λ (x : Decoder). x.at) s);
  left = subst (λ (x : Decoder). All IsByte x.rest) s y;
}

at_used : {d d' : Decoder} {used : List ℕ} → Consumed d d' used → d'.at - d.at ≡ length used
at_used c = omega (arith, c.moved)

-- Keys in canonical order, each after the one before it.
unfoldable pub Ascending : Option (List ℕ) → List Keyed → Type 0
Ascending prev [] = Unit {0}
Ascending none (k ∷ ks) = Ascending (some k.0) ks
Ascending (some p) (k ∷ ks) = (canonical_key_cmp p k.0 ≡ Ordering.lt) × Ascending (some k.0) ks

pub sort_keys-Ascending :
    (prev : Option (List ℕ)) (ks : List Keyed) → Ascending prev ks → sort_keys ks ≡ ks
unfolding Ascending sort_keys insert_key
sort_keys-Ascending prev [] h = refl
sort_keys-Ascending none (k ∷ []) h = refl
sort_keys-Ascending (some p) (k ∷ []) h = refl
sort_keys-Ascending none (k ∷ q ∷ ks) h =
    rw (sort_keys-Ascending (some k.0) (q ∷ ks) h) (rw (h.0, insert_key) refl)
sort_keys-Ascending (some p) (k ∷ q ∷ ks) h =
    rw (sort_keys-Ascending (some k.0) (q ∷ ks) h.1) (rw (h.1.0, insert_key) refl)

pub slice_cmp_self : (xs : List ℕ) → slice_cmp xs xs ≡ Ordering.eq
unfolding slice_cmp
slice_cmp_self [] = refl
slice_cmp_self (x ∷ xs) = ground (arith, slice_cmp_self xs)

canonical_key_cmp_self : (xs : List ℕ) → canonical_key_cmp xs xs ≡ Ordering.eq
unfolding canonical_key_cmp
canonical_key_cmp_self xs = ground (arith, slice_cmp_self xs)

before_differs : (p q : List ℕ) → canonical_key_cmp p q ≡ Ordering.lt → bytes_eq p q ≡ false
before_differs p q h = elim (Bool-cases (bytes_eq p q)) [
  | inl e ↦ absurd (cc (bytes_eq_sound p q e, canonical_key_cmp_self p))
  | inr e ↦ e
]

pub has_twin-Ascending :
    (prev : Option (List ℕ)) (ks : List Keyed) → Ascending prev ks → has_twin ks ≡ false
unfolding Ascending has_twin
has_twin-Ascending prev [] h = refl
has_twin-Ascending none (k ∷ []) h = refl
has_twin-Ascending (some p) (k ∷ []) h = refl
has_twin-Ascending none (k ∷ q ∷ ks) h =
    rw (before_differs k.0 q.0 h.0) (has_twin-Ascending (some k.0) (q ∷ ks) h)
has_twin-Ascending (some p) (k ∷ q ∷ ks) h =
    rw (before_differs k.0 q.0 h.1.0) (has_twin-Ascending (some k.0) (q ∷ ks) h.1)

Ascending-cons :
    (prev : Option (List ℕ)) (k : Keyed) (ks : List Keyed)
    → out_of_order prev k.0 ≡ false
    → Ascending (some k.0) ks
    → Ascending prev (k ∷ ks)
unfolding Ascending out_of_order
Ascending-cons none k ks h a = a
Ascending-cons (some p) k ks h a = (ground (arith, h), a)

-- What strict decoding of one item shows: the bytes that it consumed encode the value.
abbrev pub Encodes : ℕ → Decoder → CborValue → Decoder → Type 0
Encodes depth d v d' = (used : List ℕ) × Consumed d d' used × (encode_value v depth ≡ ok used)

-- The same of a decoder of items at this depth.
abbrev pub IsStrictItem : ℕ → (Decoder → Decoded CborValue) → Type 0
IsStrictItem depth item =
    (d d' : Decoder) (v : CborValue)
    → item d ≡ ok (v, d')
    → All IsByte d.rest
    → Encodes depth d v d'

entry-encode_keys :
    (depth : ℕ) (k v : CborValue) (others entries : Entries) (uk uv : List ℕ) (ks : List Keyed)
    → entry k v others ≡ entries
    → encode_value k depth ≡ ok uk
    → encode_value v depth ≡ ok uv
    → encode_keys others depth ≡ ok ks
    → (encode_keys entries depth ≡ ok ((uk, ok uv) ∷ ks))
      × (count_entries entries ≡ suc (count_entries others))
unfolding encode_keys encode_value count_entries
entry-encode_keys depth k v others entries uk uv ks is wk wv es = (
  subst (λ (t : Entries). encode_keys t depth ≡ ok ((uk, ok uv) ∷ ks)) is (rw (wk, wv, es) refl),
  subst (λ (t : Entries). count_entries t ≡ suc (count_entries others)) is refl,
)

write_keys-cons :
    (uk uv us : List ℕ) (ks : List Keyed)
    → write_keys ks ≡ ok us
    → write_keys ((uk, ok uv) ∷ ks) ≡ ok (uk ++ uv ++ us)
unfolding write_keys
write_keys-cons uk uv us ks ws = rw ws refl

cons-encode_items :
    (depth : ℕ) (v : CborValue) (others items : Items) (u us : List ℕ)
    → cons v others ≡ items
    → encode_value v depth ≡ ok u
    → encode_items others depth ≡ ok us
    → (encode_items items depth ≡ ok (u ++ us)) × (count_items items ≡ suc (count_items others))
unfolding encode_items encode_value count_items
cons-encode_items depth v others items u us is w ws = (
  subst (λ (t : Items). encode_items t depth ≡ ok (u ++ us)) is (rw (w, ws) refl),
  subst (λ (t : Items). count_items t ≡ suc (count_items others)) is refl,
)

module _ (depth : ℕ) (item : Decoder → Decoded CborValue)
    (strict_item : IsStrictItem depth item) where
  pub decode_items-Encodes :
      (len : ℕ) (d d' : Decoder) (items : Items)
      → decode_items item len d ≡ ok (items, d')
      → All IsByte d.rest
      → (used : List ℕ) × Consumed d d' used
        × (encode_items items depth ≡ ok used)
        × (count_items items ≡ len)
  unfolding decode_items encode_items encode_value count_items
  decode_items-Encodes zero d d' items h y =
      let (e, s) = ok_pair h in ([], Consumed-refl s y, rw (← e) refl, rw (← e) refl)
  decode_items-Encodes (suc len) d d' items h y =
      let (read, e, h1) = bind_ok (item d) _ h in
      let (others, e1, h2) = bind_ok (decode_items item len read.1) _ h1 in
      let (u, c, w) = strict_item d read.1 read.0 e y in
      let (us, cs, ws, n) = decode_items-Encodes len read.1 others.1 others.0 e1 c.left in
      let (is, s) = ok_pair h2 in
      let built = cons-encode_items depth read.0 others.0 items u us is w ws in
      (
        u ++ us,
        subst (λ (x : Decoder). Consumed d x (u ++ us)) s (Consumed-trans c cs),
        built.0,
        built.1 ∙ ap suc n,
      )

  pub decode_entries-Encodes :
      (len offset : ℕ) (seen : List (List ℕ)) (prev : Option (List ℕ)) (d d' : Decoder)
      (entries : Entries)
      → decode_entries item strict offset len seen prev d ≡ ok (entries, d')
      → All IsByte d.rest
      → (used : List ℕ) × (ks : List Keyed) × Consumed d d' used
        × (encode_keys entries depth ≡ ok ks)
        × (write_keys ks ≡ ok used)
        × Ascending prev ks
        × (count_entries entries ≡ len)
  unfolding decode_entries encode_keys encode_value count_entries write_keys check_key Ascending
  decode_entries-Encodes zero offset seen prev d d' entries h y =
      let (e, s) = ok_pair h in ([], [], Consumed-refl s y, rw (← e) refl, refl, tt, rw (← e) refl)
  decode_entries-Encodes (suc len) offset seen prev d d' entries h y =
      let (k, e, h1) = bind_ok (item d) _ h in
      let key : List ℕ = take (k.1.at - d.at) d.rest in
      let (u, e1, h2) = bind_ok (check_key strict offset d.at seen prev key) _ h1 in
      let (fresh, h3) = guard_ok (seen_before seen key) _ _ e1 in
      let (ordered, h4) = guard_ok (out_of_order prev key) _ _ h3 in
      let (v, e5, h5) = bind_ok (item k.1) _ h2 in
      let (others, e6, h6) =
        bind_ok (decode_entries item strict offset len (key ∷ seen) (some key) v.1) _ h5 in
      let (uk, ck, wk) = strict_item d k.1 k.0 e y in
      let (uv, cv, wv) = strict_item k.1 v.1 v.0 e5 ck.left in
      let (us, ks, cs, es, ws, asc, n) =
        decode_entries-Encodes len offset (key ∷ seen) (some key) v.1 others.1 others.0 e6
          cv.left in
      let (is, s) = ok_pair h6 in
      let built = entry-encode_keys depth k.0 v.0 others.0 entries uk uv ks is wk wv es in
      let same : key ≡ uk =
        ap (take (k.1.at - d.at)) ck.input
        ∙ take-append_front uk k.1.rest (k.1.at - d.at) (at_used ck) in
      (
        uk ++ uv ++ us,
        (uk, ok uv) ∷ ks,
        subst (λ (x : Decoder). Consumed d x (uk ++ uv ++ us)) s
            (Consumed-trans (Consumed-trans ck cv) cs),
        built.0,
        write_keys-cons uk uv us ks ws,
        Ascending-cons prev (uk, ok uv) ks (subst (λ t. out_of_order prev t ≡ false) same ordered)
            (subst (λ t. Ascending (some t) ks) same asc),
        built.1 ∙ ap suc n,
      )
