-- ===== src/Core/Messages/Distinct.antt =====
-- The test for duplicates of get_info.rs, which sorts and compares neighbours, against its meaning.
use Prim.Native.Nat.{Ordering, compare}
use fidoh.Base.{
  ℕ, ◌≡◌, ◌≢◌, ◌↔◌, refl, ap, sym, subst, ◌∙◌, arith, ltb, lt→ltb, false, ◌&&◌, List, [], ◌∷◌,
  length, All, inl, inr, ◌⊎◌,
}
use fidoh.Core.Cbor.Encode.{slice_cmp}
use fidoh.Core.Cbor.Canonical.{slice_cmp_self}
use fidoh.Core.Messages.GetInfo.Validate.{
  int_cmp, sort, insert_sorted, has_equal_neighbours, has_duplicate, is_equal,
}

-- No two elements at different places are equal.
abbrev pub IsDistinct : {A : Type 0} → List A → Type 0
IsDistinct [] = Unit {0}
IsDistinct (a ∷ as') = All (λ b. a ≢ b) as' × IsDistinct as'

-- What the tests ask of an order.
pub record IsOrder {A : Type 0} (cmp : A → A → Ordering) : Type 0 where
  pub equal : (a b : A) → cmp a b ≡ Ordering.eq → a ≡ b
  pub same : (a : A) → cmp a a ≡ Ordering.eq
  pub turned : (a b : A) → cmp a b ≡ Ordering.gt → cmp b a ≡ Ordering.lt
  pub chained : (a b c : A) → cmp a b ≡ Ordering.lt → cmp b c ≡ Ordering.lt → cmp a c ≡ Ordering.lt

pub compare-IsOrder : IsOrder compare
compare-IsOrder = record {
  equal = λ a b h. ground arith;
  same = λ a. ground arith;
  turned = λ a b h. ground arith;
  chained = λ a b c h g. ground arith;
}

pub int_cmp-IsOrder : IsOrder int_cmp
unfolding int_cmp
int_cmp-IsOrder = record {
  equal = λ a b h. ground arith;
  same = λ a. ground arith;
  turned = λ a b h. ground arith;
  chained = λ a b c h g. ground arith;
}

slice_cmp_equal : (xs ys : List ℕ) → slice_cmp xs ys ≡ Ordering.eq → xs ≡ ys
unfolding slice_cmp
slice_cmp_equal [] [] h = refl
slice_cmp_equal [] (y ∷ ys) h = absurd cc
slice_cmp_equal (x ∷ xs) [] h = absurd cc
slice_cmp_equal (x ∷ xs) (y ∷ ys) h = ground (arith, slice_cmp_equal xs ys)

slice_cmp_turned : (xs ys : List ℕ) → slice_cmp xs ys ≡ Ordering.gt → slice_cmp ys xs ≡ Ordering.lt
unfolding slice_cmp
slice_cmp_turned [] [] h = absurd cc
slice_cmp_turned [] (y ∷ ys) h = absurd cc
slice_cmp_turned (x ∷ xs) [] h = refl
slice_cmp_turned (x ∷ xs) (y ∷ ys) h = ground (arith, slice_cmp_turned xs ys)

slice_cmp_chained :
    (xs ys zs : List ℕ)
    → slice_cmp xs ys ≡ Ordering.lt
    → slice_cmp ys zs ≡ Ordering.lt
    → slice_cmp xs zs ≡ Ordering.lt
unfolding slice_cmp
slice_cmp_chained xs [] zs h g = absurd (below_nil xs h)
  where
    below_nil : (xs : List ℕ) → slice_cmp xs [] ≢ Ordering.lt
    below_nil [] h = cc
    below_nil (x ∷ xs) h = cc
slice_cmp_chained xs (y ∷ ys) [] h g = absurd cc
slice_cmp_chained [] (y ∷ ys) (z ∷ zs) h g = refl
slice_cmp_chained (x ∷ xs) (y ∷ ys) (z ∷ zs) h g = ground (arith, slice_cmp_chained xs ys zs)

pub slice_cmp-IsOrder : IsOrder slice_cmp
slice_cmp-IsOrder = record {
  equal = slice_cmp_equal;
  same = slice_cmp_self;
  turned = slice_cmp_turned;
  chained = slice_cmp_chained;
}

Ordering-cases : (o : Ordering) → (o ≡ Ordering.lt) ⊎ ((o ≡ Ordering.eq) ⊎ (o ≡ Ordering.gt))
Ordering-cases Ordering.lt = inl refl
Ordering-cases Ordering.eq = inr (inl refl)
Ordering-cases Ordering.gt = inr (inr refl)

All-mono :
    {A : Type 0} {P Q : A → Type 0} (xs : List A) → ((a : A) → P a → Q a) → All P xs → All Q xs
All-mono [] f h = tt
All-mono (x ∷ xs) f h = (f x h.0, All-mono xs f h.1)

module _ {A : Type 0} (cmp : A → A → Ordering) (order : IsOrder cmp) where
  abbrev Ascending : List A → Type 0
  Ascending [] = Unit {0}
  Ascending (a ∷ as') = All (λ b. cmp a b ≡ Ordering.lt) as' × Ascending as'

  -- Neighbours in order.
  abbrev Ordered : List A → Type 0
  Ordered [] = Unit {0}
  Ordered (a ∷ []) = Unit {0}
  Ordered (a ∷ b ∷ bs) = (cmp a b ≢ Ordering.gt) × Ordered (b ∷ bs)

  insert-cases :
      (a b : A) (bs : List A)
      → ((cmp a b ≡ Ordering.gt) × (insert_sorted cmp a (b ∷ bs) ≡ b ∷ insert_sorted cmp a bs))
        ⊎ ((cmp a b ≢ Ordering.gt) × (insert_sorted cmp a (b ∷ bs) ≡ a ∷ b ∷ bs))
  unfolding insert_sorted
  insert-cases a b bs = elim (Ordering-cases (cmp a b)) [
    | inl e ↦ inr (cc, rw (e, insert_sorted) refl)
    | inr (inl e) ↦ inr (cc, rw (e, insert_sorted) refl)
    | inr (inr e) ↦ inl (e, rw (e, insert_sorted) refl)
  ]

  All-insert :
      (P : A → Type 0) (a : A) (bs : List A) → P a → All P bs → All P (insert_sorted cmp a bs)
  unfolding insert_sorted
  All-insert P a [] p h = (p, tt)
  All-insert P a (b ∷ bs) p h = elim (insert-cases a b bs) [
    | inl (g, e) ↦ subst (All P) (sym e) (h.0, All-insert P a bs p h.1)
    | inr (g, e) ↦ subst (All P) (sym e) (p, h)
  ]

  All-inserted :
      (P : A → Type 0) (a : A) (bs : List A) → All P (insert_sorted cmp a bs) → P a × All P bs
  unfolding insert_sorted
  All-inserted P a [] h = h
  All-inserted P a (b ∷ bs) h = elim (insert-cases a b bs) [
    | inl (g, e) ↦
        let both = subst (All P) e h in
        let (p, ps) = All-inserted P a bs both.1 in (p, (both.0, ps))
    | inr (g, e) ↦ subst (All P) e h
  ]

  -- Sorting keeps the elements, so that it keeps them distinct.
  insert-IsDistinct :
      (a : A) (bs : List A)
      → All (λ b. a ≢ b) bs
      → IsDistinct bs
      → IsDistinct (insert_sorted cmp a bs)
  unfolding insert_sorted
  insert-IsDistinct a [] h d = (tt, tt)
  insert-IsDistinct a (b ∷ bs) h d = elim (insert-cases a b bs) [
    | inl (g, e) ↦
        subst IsDistinct (sym e)
          (All-insert (λ c. b ≢ c) a bs (λ s. h.0 (sym s)) d.0, insert-IsDistinct a bs h.1 d.1)
    | inr (g, e) ↦ subst IsDistinct (sym e) (h, d)
  ]

  inserted-IsDistinct :
      (a : A) (bs : List A)
      → IsDistinct (insert_sorted cmp a bs)
      → All (λ b. a ≢ b) bs × IsDistinct bs
  unfolding insert_sorted
  inserted-IsDistinct a [] d = (tt, tt)
  inserted-IsDistinct a (b ∷ bs) d = elim (insert-cases a b bs) [
    | inl (g, e) ↦
        let there = subst IsDistinct e d in
        let (others, fresh) = inserted-IsDistinct a bs there.1 in
        let (ba, bbs) = All-inserted (λ c. b ≢ c) a bs there.0 in
        (((λ s. ba (sym s)), others), (bbs, fresh))
    | inr (g, e) ↦ subst IsDistinct e d
  ]

  All-sort : (P : A → Type 0) (as' : List A) → All P as' → All P (sort cmp as')
  unfolding sort
  All-sort P [] h = tt
  All-sort P (a ∷ as') h = All-insert P a (sort cmp as') h.0 (All-sort P as' h.1)

  All-sorted : (P : A → Type 0) (as' : List A) → All P (sort cmp as') → All P as'
  unfolding sort
  All-sorted P [] h = tt
  All-sorted P (a ∷ as') h =
      let (p, ps) = All-inserted P a (sort cmp as') h in (p, All-sorted P as' ps)

  sort-IsDistinct : (as' : List A) → IsDistinct as' → IsDistinct (sort cmp as')
  unfolding sort
  sort-IsDistinct [] d = tt
  sort-IsDistinct (a ∷ as') d =
      insert-IsDistinct a (sort cmp as') (All-sort (λ b. a ≢ b) as' d.0) (sort-IsDistinct as' d.1)

  sorted-IsDistinct : (as' : List A) → IsDistinct (sort cmp as') → IsDistinct as'
  unfolding sort
  sorted-IsDistinct [] d = tt
  sorted-IsDistinct (a ∷ as') d =
      let (fresh, others) = inserted-IsDistinct a (sort cmp as') d in
      (All-sorted (λ b. a ≢ b) as' fresh, sorted-IsDistinct as' others)

  insert-Ordered : (a : A) (bs : List A) → Ordered bs → Ordered (insert_sorted cmp a bs)
  unfolding insert_sorted
  insert-Ordered a [] h = tt
  insert-Ordered a (b ∷ []) h = elim (insert-cases a b []) [
    | inl (g, e) ↦ subst Ordered (sym e) (cc (order.turned a b g), tt)
    | inr (g, e) ↦ subst Ordered (sym e) (g, tt)
  ]
  insert-Ordered a (b ∷ c ∷ bs) h = elim (insert-cases a b (c ∷ bs)) [
    | inr (g, e) ↦ subst Ordered (sym e) (g, h)
    | inl (g, e) ↦
        let rest = insert-Ordered a (c ∷ bs) h.1 in
        subst Ordered (sym e) (elim (insert-cases a c bs) [
          | inl (g', e') ↦ subst (λ l. Ordered (b ∷ l)) (sym e') (h.0, subst Ordered e' rest)
          | inr (g', e') ↦
              subst (λ l. Ordered (b ∷ l)) (sym e') (cc (order.turned a b g), subst Ordered e' rest)
        ])
  ]

  sort-Ordered : (as' : List A) → Ordered (sort cmp as')
  unfolding sort
  sort-Ordered [] = tt
  sort-Ordered (a ∷ as') = insert-Ordered a (sort cmp as') (sort-Ordered as')

  distinct_neighbours : (bs : List A) → IsDistinct bs → has_equal_neighbours cmp bs ≡ false
  unfolding has_equal_neighbours is_equal
  distinct_neighbours [] d = refl
  distinct_neighbours (b ∷ []) d = refl
  distinct_neighbours (b ∷ c ∷ bs) d = elim (Ordering-cases (cmp b c)) [
    | inl e ↦ rw e (distinct_neighbours (c ∷ bs) d.1)
    | inr (inl e) ↦ absurd (d.0.0 (order.equal b c e))
    | inr (inr e) ↦ rw e (distinct_neighbours (c ∷ bs) d.1)
  ]

  neighbours-Ascending :
      (bs : List A) → Ordered bs → has_equal_neighbours cmp bs ≡ false → Ascending bs
  unfolding has_equal_neighbours is_equal
  neighbours-Ascending [] o h = tt
  neighbours-Ascending (b ∷ []) o h = (tt, tt)
  neighbours-Ascending (b ∷ c ∷ bs) o h = elim (Ordering-cases (cmp b c)) [
    | inl e ↦
        let rest = neighbours-Ascending (c ∷ bs) o.1 (ground (arith, h, e)) in
        ((e, All-mono bs (λ x l. order.chained b c x e l) rest.0), rest)
    | inr (inl e) ↦ absurd (ground (arith, h, e))
    | inr (inr e) ↦ absurd (o.0 e)
  ]

  Ascending-IsDistinct : (bs : List A) → Ascending bs → IsDistinct bs
  Ascending-IsDistinct [] h = tt
  Ascending-IsDistinct (b ∷ bs) h = (
    All-mono bs (λ x l s. absurd (cc (l, order.same b, ap (cmp b) s))) h.0,
    Ascending-IsDistinct bs h.1,
  )

  -- The guard on the length adds nothing.
  guard-neighbours :
      (bs : List A)
      → (ltb 1 (length bs) && has_equal_neighbours cmp bs) ≡ has_equal_neighbours cmp bs
  unfolding has_equal_neighbours
  guard-neighbours [] = refl
  guard-neighbours (b ∷ []) = refl
  guard-neighbours (b ∷ c ∷ bs) = rw (lt→ltb 1 (length (b ∷ c ∷ bs)) (omega arith)) refl

  has_duplicate-neighbours :
      (as' : List A) → has_duplicate cmp as' ≡ has_equal_neighbours cmp (sort cmp as')
  unfolding has_duplicate
  has_duplicate-neighbours as' = guard-neighbours (sort cmp as')

  -- The test finds no duplicate in a list exactly when its elements are distinct.
  pub has_duplicate-IsDistinct : (as' : List A) → (has_duplicate cmp as' ≡ false) ↔ IsDistinct as'
  has_duplicate-IsDistinct as' = (
    (λ h. sorted-IsDistinct as' (
        Ascending-IsDistinct (sort cmp as') (
          neighbours-Ascending (sort cmp as') (sort-Ordered as')
            (sym (has_duplicate-neighbours as') ∙ h)))),
    (λ d.
        has_duplicate-neighbours as' ∙ distinct_neighbours (sort cmp as') (sort-IsDistinct as' d)),
  )
