-- ===== src/Core/Selection.antt =====
-- crates/fidoh-core/src/transport.rs: the selection policy over the enumerated candidates.
pub mod Choice
use text.Mathlib.Text.{◌==◌}
use fidoh.Base.{
  ℕ, Bool, true, false, if◌then◌else◌, ◌&&◌, ◌||◌, List, [], ◌∷◌, Option, none, some, Outcome, ok,
  err, bytes_eq,
}
use fidoh.Core.Errors.{CandidateDescriptor, Error, unknown_device, ambiguous_device}

-- The derived `==` of the optional AAGUIDs and of the descriptors.
unfoldable pub aaguid_eq : Option (List ℕ) → Option (List ℕ) → Bool
aaguid_eq none none = true
aaguid_eq none (some b) = false
aaguid_eq (some a) none = false
aaguid_eq (some a) (some b) = bytes_eq a b

unfoldable pub descriptor_eq : CandidateDescriptor → CandidateDescriptor → Bool
descriptor_eq c d = (c.id == d.id) && ((c.name == d.name) && aaguid_eq c.aaguid d.aaguid)

-- `candidates.contains(&picked)`.
unfoldable pub contains : List CandidateDescriptor → CandidateDescriptor → Bool
contains [] picked = false
contains (c ∷ candidates) picked = descriptor_eq c picked || contains candidates picked

pub data SelectionPolicy : Type 0 where
  first : SelectionPolicy
  select : (List CandidateDescriptor → Option CandidateDescriptor) → SelectionPolicy
  fail : SelectionPolicy

module _ {ℓ} {D : Type ℓ} where
  -- What the selector returned is looked up in the candidates again.
  select_picked :
      List CandidateDescriptor
      → Option CandidateDescriptor
      → Outcome (Error D) (Option CandidateDescriptor)
  select_picked candidates none = ok none
  select_picked candidates (some picked) =
      if contains candidates picked then ok (some picked) else err (unknown_device picked.id)

  -- `apply_selection`.
  unfoldable pub apply_selection :
      SelectionPolicy → List CandidateDescriptor → Outcome (Error D) (Option CandidateDescriptor)
  unfolding select_picked
  apply_selection first [] = ok none
  apply_selection first (c ∷ candidates) = ok (some c)
  apply_selection (select f) candidates = select_picked candidates (f candidates)
  apply_selection fail [] = ok none
  apply_selection fail (only ∷ []) = ok (some only)
  apply_selection fail (c ∷ d ∷ many) = err (ambiguous_device (c ∷ d ∷ many))
