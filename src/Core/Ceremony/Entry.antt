-- ===== src/Core/Ceremony/Entry.antt =====
-- crates/fidoh-core/src/ceremony.rs: `GetAssertionCeremony::run`, from discovery to connection. A
-- transport is what the run calls of it.
use Prim.Native.String.{String}
use fidoh.Base.{
  ℕ, zero, suc, if◌then◌else◌, Bool, List, [], ◌∷◌, ◌++◌, map, get_elem?, Outcome, ok, err, Option,
  none, some,
}
use fidoh.Core.Time.{Phase, Race, new}
use fidoh.Core.Errors.{CandidateDescriptor, Error}
use fidoh.Core.Selection.{SelectionPolicy, apply_selection, descriptor_eq}
use fidoh.Core.Ceremony.{
  TransportError, TransportKind, DiscoveryDiagnostic, CeremonyError, timeout, transport, no_device,
  failure, from_core,
}
use fidoh.Core.Ceremony.Run.{
  Send, World, Stop, fails, panics, unfollowed, Outside, PinCrypto, Run, pure, fail, panic, settle,
  race, ◌>>=◌,
}
use fidoh.Core.Ceremony.Input.{CeremonyInput}
use fidoh.Core.Ceremony.Exchange.{GetAssertionOutcome, exchange_pipeline}

pub record DeviceInfo : Type 0 where
  pub id : String
  pub name : String
  pub aaguid : Option (List ℕ)

-- `DeviceInfo::descriptor`.
abbrev pub descriptor : DeviceInfo → CandidateDescriptor
descriptor info = record { id = info.id; name = info.name; aaguid = info.aaguid }

pub record Transport (W : Type 0) : Type 0 where
  pub kind : TransportKind
  pub enumerate : World W → Race (Outcome (Error TransportError) (List DeviceInfo)) × World W
  pub connect : String → World W → Race (Outcome (Error TransportError) (Send W)) × World W

pub record Discovered : Type 0 where
  pub candidates : List (DeviceInfo × ℕ)
  pub diagnostics : List DiscoveryDiagnostic

-- The cause of a diagnostic.
unfoldable pub cause_of : CeremonyError → Error TransportError
cause_of (transport e) = Error.transport e
cause_of other = Error.transport (record { layer = "ceremony"; detail = "enumeration failed" })

abbrev owned : ℕ → List DeviceInfo → List (DeviceInfo × ℕ)
owned idx devices = map (λ info. (info, idx)) devices

-- What one transport's enumeration adds: a timeout ends the phase, another error is a diagnostic.
unfoldable pub found :
    ℕ → TransportKind → Outcome CeremonyError (List DeviceInfo) → Outcome CeremonyError Discovered
unfolding cause_of
found idx kind (ok devices) = ok (record { candidates = owned idx devices; diagnostics = [] })
found idx kind (err (timeout phase)) = err (timeout phase)
found idx kind (err e) =
    ok (record { candidates = []; diagnostics = record { kind = kind; cause = cause_of e } ∷ [] })

unfoldable pub joined : Discovered → Discovered → Discovered
joined d e = record {
  candidates = d.candidates ++ e.candidates;
  diagnostics = d.diagnostics ++ e.diagnostics;
}

-- `descriptors.iter().position(|d| d == &selected)`.
unfoldable pub position : List CandidateDescriptor → CandidateDescriptor → Option ℕ
position [] selected = none
position (d ∷ ds) selected =
    let later = position ds selected in
    if descriptor_eq d selected
    then some zero
    else elim later [ none ↦ none | some i ↦ some (suc i) ]

-- What `run` makes of the policy's answer.
unfoldable pub picked :
    List DiscoveryDiagnostic
    → Outcome (Error TransportError) (Option CandidateDescriptor)
    → Outcome CeremonyError CandidateDescriptor
picked diagnostics (err e) = err (from_core e)
picked diagnostics (ok none) = err (no_device diagnostics)
picked diagnostics (ok (some selected)) = ok selected

unfoldable pub selected_from :
    SelectionPolicy
    → List DiscoveryDiagnostic
    → List CandidateDescriptor
    → Outcome CeremonyError CandidateDescriptor
selected_from policy diagnostics [] = err (no_device diagnostics)
selected_from policy diagnostics (c ∷ cs) = picked diagnostics (apply_selection policy (c ∷ cs))

abbrev pub descriptors : Discovered → List CandidateDescriptor
descriptors d = map (λ (p : DeviceInfo × ℕ). descriptor p.0) d.candidates

-- Phase 2: the candidate that the policy selects.
unfoldable pub selected_candidate :
    SelectionPolicy → Discovered → Outcome CeremonyError CandidateDescriptor
selected_candidate policy d = selected_from policy d.diagnostics (descriptors d)

module _ {W : Type 0} where
  -- An error as a value; a panic goes on.
  unfoldable pub caught :
      {A : Type 0} → Outcome Stop A × World W → Outcome Stop (Outcome CeremonyError A) × World W
  caught (ok a, w) = (ok (ok a), w)
  caught (err (fails e), w) = (ok (err e), w)
  caught (err (panics message), w) = (err (panics message), w)
  caught (err unfollowed, w) = (err unfollowed, w)

  -- The turn of `discover` for one transport.
  unfoldable pub enumerated : ℕ → Transport W → Run W Discovered
  unfolding caught
  enumerated idx t = (λ w. caught (race Phase.enumeration t.enumerate w)) >>= λ devices.
      settle (found idx t.kind devices)

  -- `discover`, from the transport with this index on.
  unfoldable pub discover : ℕ → List (Transport W) → Run W Discovered
  discover idx [] = pure (record { candidates = []; diagnostics = [] })
  discover idx (t ∷ ts) =
      let rest = discover (suc idx) ts in
      enumerated idx t >>= λ here. rest >>= λ others. pure (joined here others)

  -- `self.transports.swap_remove(..)`, which panics out of range.
  unfoldable pub removed : Option (Transport W) → Run W (Transport W)
  removed none = panic "swap_remove index out of bounds"
  removed (some t) = pure t

  -- `candidates[owner_idx].1`, which panics out of range too.
  unfoldable pub owner_at : List (Transport W) → Option (DeviceInfo × ℕ) → Run W (Transport W)
  owner_at ts none = panic "index out of bounds"
  owner_at ts (some candidate) = removed (get_elem? ts candidate.1)

  unfoldable pub owner_of :
      List (Transport W) → List (DeviceInfo × ℕ) → Option ℕ → Run W (Transport W)
  owner_of ts candidates none = fail (failure "ceremony" "selected device has no owning transport")
  owner_of ts candidates (some owner_idx) = owner_at ts (get_elem? candidates owner_idx)

module _ {W K S : Type 0} (closures : Outside W) (crypto : PinCrypto W K S) where
  -- Phases 1 to 3 and those of `exchange_pipeline`, over the device that was connected.
  unfoldable pub run_with_budget :
      List (Transport W) → SelectionPolicy → CeremonyInput → Bool → Run W GetAssertionOutcome
  run_with_budget ts policy input has_drain = discover 0 ts >>= λ d.
      settle (selected_candidate policy d) >>= λ selected.
      owner_of ts d.candidates (position (descriptors d) selected) >>= λ t.
      race Phase.connect (t.connect selected.id) >>= λ device.
      exchange_pipeline (record closures { send = device }) crypto input has_drain >>= λ outcome.
      pure (record outcome { discovery_diagnostics = d.diagnostics })

  -- `GetAssertionCeremony::run`.
  unfoldable pub run :
      ℕ
      → List (Transport W)
      → SelectionPolicy
      → CeremonyInput
      → Bool
      → W
      → Outcome Stop GetAssertionOutcome × World W
  run deadline ts policy input has_drain outside =
      run_with_budget ts policy input has_drain
        (record { outside = outside; deadline = new deadline })
