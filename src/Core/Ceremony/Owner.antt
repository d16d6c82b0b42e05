-- ===== src/Core/Ceremony/Owner.antt =====
-- The selection of ceremony.rs: the selected descriptor leads back to the transport that listed it.
use mathlib.Core.List.{Memᴰ}
use fidoh.Base.{
  ℕ, zero, suc, ◌+◌, ◌≡◌, refl, sym, ap, ◌∙◌, subst, arith, true, false, List, [], ◌∷◌, ◌++◌, map,
  get_elem?, Outcome, ok, err, ok_inj, Option, none, some, Bool-cases, inl, inr,
}
use fidoh.Core.Errors.{CandidateDescriptor, Error}
use fidoh.Core.Selection.{SelectionPolicy, descriptor_eq}
use fidoh.Core.Selection.Choice.{selected-Memᴰ, descriptor_eq_sound, descriptor_eq_self}
use fidoh.Core.Ceremony.{DiscoveryDiagnostic, CeremonyError, TransportError, TransportKind, timeout}
use fidoh.Core.Ceremony.Run.{World}
use fidoh.Core.Ceremony.Safety.{from_run, settle_run, run_ok_inj}
use fidoh.Core.Ceremony.Entry.{
  DeviceInfo, descriptor, Transport, Discovered, found, joined, position, picked, selected_from,
  descriptors, selected_candidate, enumerated, discover, owner_of, owner_at, removed,
}

-- The candidates carry the indices of the transports from `idx` on.
abbrev pub Indexed : {W : Type 0} → ℕ → List (Transport W) → List (DeviceInfo × ℕ) → Type 0
Indexed {W} idx ts candidates =
    (i : ℕ) (c : DeviceInfo × ℕ)
    → get_elem? candidates i ≡ some c
    → (k : ℕ) × (t : Transport W) × (c.1 ≡ idx + k) × (get_elem? ts k ≡ some t)

some_inj : {A : Type 0} {a b : A} → ◌≡◌ {A = Option A} (some a) (some b) → a ≡ b
some_inj h = cc

none_found :
    (idx : ℕ) (kind : TransportKind) (e : CeremonyError) (d : Discovered)
    → found idx kind (err e) ≡ ok d
    → [] ≡ d.candidates
unfolding found
none_found idx kind (timeout phase) d h = absurd cc
none_found idx kind e d h = ap (λ (x : Discovered). x.candidates) (ok_inj h)

module _ {W : Type 0} where
  owned-Indexed :
      (idx : ℕ) (t : Transport W) (ts : List (Transport W)) (devices : List DeviceInfo)
      → Indexed idx (t ∷ ts) (map (λ info. (info, idx)) devices)
  owned-Indexed idx t ts [] i c h = absurd cc
  owned-Indexed idx t ts (info ∷ devices) zero c h =
      (0, t, omega (arith, ap (λ (p : DeviceInfo × ℕ). p.1) (some_inj h)), refl)
  owned-Indexed idx t ts (info ∷ devices) (suc i) c h = owned-Indexed idx t ts devices i c h

  found-Indexed :
      (idx : ℕ) (t : Transport W) (ts : List (Transport W)) (kind : TransportKind)
      (r : Outcome CeremonyError (List DeviceInfo)) (d : Discovered)
      → found idx kind r ≡ ok d
      → Indexed idx (t ∷ ts) d.candidates
  unfolding found
  found-Indexed idx t ts kind (ok devices) d h =
      subst (λ (x : Discovered). Indexed idx (t ∷ ts) x.candidates) (ok_inj h)
        (owned-Indexed idx t ts devices)
  found-Indexed idx t ts kind (err e) d h =
      subst (λ (xs : List (DeviceInfo × ℕ)). Indexed idx (t ∷ ts) xs) (none_found idx kind e d h)
        (owned-Indexed idx t ts [])

  append-Indexed :
      (idx : ℕ) (t : Transport W) (ts : List (Transport W)) (xs ys : List (DeviceInfo × ℕ))
      → Indexed idx (t ∷ ts) xs
      → Indexed (suc idx) ts ys
      → Indexed idx (t ∷ ts) (xs ++ ys)
  append-Indexed idx t ts [] ys hx hy i c h =
      let there = hy i c h in (suc there.0, there.1, omega (arith, there.2), there.3)
  append-Indexed idx t ts (x ∷ xs) ys hx hy zero c h = hx zero c h
  append-Indexed idx t ts (x ∷ xs) ys hx hy (suc i) c h =
      append-Indexed idx t ts xs ys (λ j d e. hx (suc j) d e) hy i c h

  discover-Indexed :
      (ts : List (Transport W)) (idx : ℕ) (w w' : World W) (d : Discovered)
      → discover idx ts w ≡ (ok d, w')
      → Indexed idx ts d.candidates
  unfolding discover joined enumerated
  discover-Indexed [] idx w w' d h =
      subst (λ (x : Discovered). Indexed {W = W} idx [] x.candidates) (run_ok_inj h)
        (λ i c e. absurd cc)
  discover-Indexed (t ∷ ts) idx w w' d h = from_run _ _ h (λ here w1 came more.
      from_run _ _ more (λ others w2 came' last. from_run _ _ came (λ devices w3 listed added.
        subst (λ (x : Discovered). Indexed idx (t ∷ ts) x.candidates) (run_ok_inj last)
          (append-Indexed idx t ts here.candidates others.candidates
            (found-Indexed idx t ts t.kind devices here (settle_run _ w3 added))
            (discover-Indexed ts (suc idx) w1 w2 others came')))))

position-cons :
    (d c : CandidateDescriptor) (ds : List CandidateDescriptor) (i : ℕ)
    → descriptor_eq d c ≡ false
    → position ds c ≡ some i
    → position (d ∷ ds) c ≡ some (suc i)
unfolding position
position-cons d c ds i e h = rw (e, h) refl

position-Memᴰ :
    (ds : List CandidateDescriptor) (c : CandidateDescriptor)
    → Memᴰ c ds
    → (i : ℕ) × (position ds c ≡ some i) × (get_elem? ds i ≡ some c)
unfolding position
position-Memᴰ [] c m = elim m [ ]
position-Memᴰ (d ∷ ds) c (Memᴰ.head e) = (
  0,
  rw (subst (λ (x : CandidateDescriptor). descriptor_eq x c ≡ true) e (descriptor_eq_self c)) refl,
  ap some (sym e),
)
position-Memᴰ (d ∷ ds) c (Memᴰ.tail m) = elim (Bool-cases (descriptor_eq d c)) [
  | inl same ↦ (0, rw same refl, ap some (descriptor_eq_sound d c same))
  | inr other ↦
      let (i, at, is) = position-Memᴰ ds c m in (suc i, position-cons d c ds i other at, is)
]

get_elem?-map :
    {A B : Type 0} (f : A → B) (xs : List A) (i : ℕ) (b : B)
    → get_elem? (map f xs) i ≡ some b
    → (a : A) × (get_elem? xs i ≡ some a) × (f a ≡ b)
get_elem?-map f [] i b h = absurd cc
get_elem?-map f (x ∷ xs) zero b h = (x, refl, some_inj h)
get_elem?-map f (x ∷ xs) (suc i) b h = get_elem?-map f xs i b h

picked_ok :
    (diagnostics : List DiscoveryDiagnostic)
    (r : Outcome (Error TransportError) (Option CandidateDescriptor)) (c : CandidateDescriptor)
    → picked diagnostics r ≡ ok c
    → r ≡ ok (some c)
unfolding picked
picked_ok diagnostics (err e) c h = absurd cc
picked_ok diagnostics (ok none) c h = absurd cc
picked_ok diagnostics (ok (some s)) c h = ap (λ x. ok (some x)) (ok_inj h)

selected_from-Memᴰ :
    (policy : SelectionPolicy) (diagnostics : List DiscoveryDiagnostic)
    (cs : List CandidateDescriptor) (c : CandidateDescriptor)
    → selected_from policy diagnostics cs ≡ ok c
    → Memᴰ c cs
unfolding selected_from
selected_from-Memᴰ policy diagnostics [] c h = absurd cc
selected_from-Memᴰ policy diagnostics (d ∷ ds) c h =
    selected-Memᴰ policy (d ∷ ds) c (picked_ok diagnostics _ c h)

owner_of-found :
    {W : Type 0} (ts : List (Transport W)) (candidates : List (DeviceInfo × ℕ)) (at : Option ℕ)
    (i : ℕ) (c : DeviceInfo × ℕ) (t : Transport W) (w : World W)
    → at ≡ some i
    → get_elem? candidates i ≡ some c
    → get_elem? ts c.1 ≡ some t
    → owner_of ts candidates at w ≡ (ok t, w)
unfolding owner_of owner_at removed
owner_of-found ts candidates none i c t w h e o = absurd cc
owner_of-found ts candidates (some j) i c t w h e o =
    rw (ap (λ (n : ℕ). get_elem? candidates n) (some_inj h) ∙ e, o) refl

-- After a discovery, the descriptor that the policy selects is the one of a candidate, and the
-- lookup of its owner finds, without an index out of bounds, the transport whose index that candidate
-- carries.
pub discover-owner_of :
    {W : Type 0} (ts : List (Transport W)) (policy : SelectionPolicy) (d : Discovered)
    (c : CandidateDescriptor) (w w' : World W)
    → discover 0 ts w ≡ (ok d, w')
    → selected_candidate policy d ≡ ok c
    → (i : ℕ) × (info : DeviceInfo) × (k : ℕ) × (t : Transport W) × (get_elem? d.candidates i
        ≡ some (info, k))
      × (descriptor info ≡ c)
      × (get_elem? ts k ≡ some t)
      × (owner_of ts d.candidates (position (descriptors d) c) w' ≡ (ok t, w'))
unfolding selected_candidate
discover-owner_of ts policy d c w w' h s =
    let (i, at, is) =
      position-Memᴰ (descriptors d) c
        (selected_from-Memᴰ policy d.diagnostics (descriptors d) c s) in
    let (p, found_at, same) =
      get_elem?-map (λ (p : DeviceInfo × ℕ). descriptor p.0) d.candidates i c is in
    let (k, t, index, there) = discover-Indexed ts 0 w w' d h i p found_at in
    let owner : get_elem? ts p.1 ≡ some t =
      subst (λ (n : ℕ). get_elem? ts n ≡ some t) (omega arith) there in
    (
      i,
      p.0,
      p.1,
      t,
      found_at,
      same,
      owner,
      owner_of-found ts d.candidates _ i p t w' at found_at owner,
    )
