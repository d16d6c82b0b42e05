-- ===== src/Core/Selection/Choice.antt =====
-- That `apply_selection` never takes what was not enumerated, and what it does with a refusal.
use text.Mathlib.TextEquality.{eq_iff}
use mathlib.Core.List.{Memᴰ}
use fidoh.Base.{
  ℕ, true, List, [], ◌∷◌, Option, none, some, ok, bytes_eq_sound, bytes_eq_refl, ◌≡◌, refl, ap, ◌↔◌,
  inl, inr, arith, Bool-cases, Option-cases, sym,
}
use fidoh.Core.Errors.{CandidateDescriptor}
use fidoh.Core.Selection.{
  aaguid_eq, descriptor_eq, contains, SelectionPolicy, first, select, fail, apply_selection,
  select_picked,
}

aaguid_eq_sound : (a b : Option (List ℕ)) → aaguid_eq a b ≡ true → a ≡ b
unfolding aaguid_eq
aaguid_eq_sound none none h = refl
aaguid_eq_sound none (some b) h = cc
aaguid_eq_sound (some a) none h = cc
aaguid_eq_sound (some a) (some b) h = ap some (bytes_eq_sound a b h)

pub descriptor_eq_sound : (c d : CandidateDescriptor) → descriptor_eq c d ≡ true → c ≡ d
unfolding descriptor_eq
descriptor_eq_sound c d h =
    ground (arith, eq_iff c.id d.id, eq_iff c.name d.name, aaguid_eq_sound c.aaguid d.aaguid)

aaguid_eq_self : (a : Option (List ℕ)) → aaguid_eq a a ≡ true
unfolding aaguid_eq
aaguid_eq_self none = refl
aaguid_eq_self (some a) = bytes_eq_refl a

pub descriptor_eq_self : (c : CandidateDescriptor) → descriptor_eq c c ≡ true
unfolding descriptor_eq
descriptor_eq_self c =
    ground (arith, eq_iff c.id c.id, eq_iff c.name c.name, aaguid_eq_self c.aaguid)

contains-Memᴰ :
    (candidates : List CandidateDescriptor) (c : CandidateDescriptor)
    → contains candidates c ≡ true
    → Memᴰ c candidates
unfolding contains
contains-Memᴰ [] c h = absurd cc
contains-Memᴰ (d ∷ candidates) c h = elim (Bool-cases (descriptor_eq d c)) [
  | inl e ↦ Memᴰ.head (sym (descriptor_eq_sound d c e))
  | inr e ↦ Memᴰ.tail (contains-Memᴰ candidates c (ground arith))
]

abbrev pub Declined : SelectionPolicy → List CandidateDescriptor → Type 0
Declined first candidates = candidates ≡ []
Declined (select f) candidates = f candidates ≡ none
Declined fail candidates = candidates ≡ []

module _ {ℓ} {D : Type ℓ} where
  -- Under every policy, a descriptor that is selected is one of the candidates.
  pub selected-Memᴰ :
      (policy : SelectionPolicy) (candidates : List CandidateDescriptor) (c : CandidateDescriptor)
      → apply_selection {D = D} policy candidates ≡ ok (some c)
      → Memᴰ c candidates
  unfolding apply_selection select_picked
  selected-Memᴰ first [] c h = absurd (ground arith)
  selected-Memᴰ first (d ∷ candidates) c h = Memᴰ.head (ground arith)
  selected-Memᴰ (select f) candidates c h = elim (Option-cases (f candidates)) [
    | inl e ↦ absurd (ground (arith, e, h))
    | inr (picked, e) ↦ elim (Bool-cases (contains candidates picked)) [
      | inl m ↦ contains-Memᴰ candidates c (ground (arith, e, m, h))
      | inr m ↦ absurd (ground (arith, e, m, h))
    ]
  ]
  selected-Memᴰ fail [] c h = absurd (ground arith)
  selected-Memᴰ fail (d ∷ []) c h = Memᴰ.head (ground arith)
  selected-Memᴰ fail (d ∷ e ∷ candidates) c h = absurd (ground arith)

  -- Nothing is selected, without an error, exactly when there are no candidates under `First` or
  -- `Fail`, or when the caller's selector returns `None`, whatever the candidates are.
  pub apply_selection-Declined :
      (policy : SelectionPolicy) (candidates : List CandidateDescriptor)
      → (apply_selection {D = D} policy candidates ≡ ok none) ↔ Declined policy candidates
  unfolding apply_selection select_picked
  apply_selection-Declined first [] = ground arith
  apply_selection-Declined first (c ∷ candidates) = ground arith
  apply_selection-Declined (select f) candidates = elim (Option-cases (f candidates)) [
    | inl e ↦ (λ h. e, λ d. rw e refl)
    | inr (picked, e) ↦ elim (Bool-cases (contains candidates picked)) [
      | inl m ↦ ground (arith, e, m)
      | inr m ↦ ground (arith, e, m)
    ]
  ]
  apply_selection-Declined fail [] = ground arith
  apply_selection-Declined fail (c ∷ []) = ground arith
  apply_selection-Declined fail (c ∷ d ∷ candidates) = ground arith
