-- ===== src/Soft/ClientPin/Agreement.antt =====
-- crates/fidoh-transport-soft/src/auth.rs: PinAgreement, the key agreement of the soft token.
use fidoh.Base.{
  ℕ, zero, suc, ◌==◌, if◌then◌else◌, not, ◌||◌, List, ◌∷◌, ◌++◌, length, Outcome, ok, err, Option,
  none, some,
}
use fidoh.Core.Status.{StatusCode, invalid_parameter, key_store_full}
use fidoh.Core.Cbor.{pos, negsuc, CborValue, int, bytes, map, Entries, end, entry}
use fidoh.Core.Messages.Cose.{int_eq}
use fidoh.Core.Crypto.{Primitives}
use fidoh.Soft.ClientPin.{PinAgreement}

-- The two `if let` of the loop of `decapsulate`, on the coordinates read so far.
unfoldable pub read_coordinate :
    CborValue → CborValue → Option (List ℕ) × Option (List ℕ) → Option (List ℕ) × Option (List ℕ)
read_coordinate (int label) (bytes b) (x, y) =
    if int_eq label (negsuc 1)
    then (some b, y)
    else if int_eq label (negsuc 2)
    then (x, some b)
    else (x, y)
read_coordinate k v found = found

unfoldable pub read_coordinates :
    Entries → Option (List ℕ) × Option (List ℕ) → Option (List ℕ) × Option (List ℕ)
read_coordinates end found = found
read_coordinates (entry k v entries) found = read_coordinates entries (read_coordinate k v found)

module _ {W K P : Type 0} (prim : Primitives W K P) where
  -- `PlatformKeyHolder::cose_key`.
  abbrev pub holder_cose_key : K → CborValue
  holder_cose_key secret = map (
      entry (int (pos 1)) (int (pos 2)) (
        entry (int (pos 3)) (int (negsuc 24)) (
          entry (int (negsuc 0)) (int (pos 1)) (
            entry (int (negsuc 1)) (bytes (prim.x_of (prim.public_key secret)))
              (entry (int (negsuc 2)) (bytes (prim.y_of (prim.public_key secret))) end)))))

  -- `PinAgreement::generate`, on the draws that are left.
  unfoldable pub agreement_generate : ℕ → W → Outcome StatusCode (PinAgreement K) × W
  agreement_generate zero w = (err key_store_full, w)
  agreement_generate (suc draws) w =
      let (drawn, w') = prim.fill_random 32 w in
      let more = agreement_generate draws w' in
      elim drawn [
        | err e ↦ (err key_store_full, w')
        | ok b ↦ elim (prim.secret_key b) [
          | some sk ↦ (
            ok (record {
              protocol = none;
              secret = some sk;
              public_cose_key = some (holder_cose_key sk);
              pin_token = none;
            }),
            w',
          )
          | none ↦ more
        ]
      ]

  -- `PinAgreement::decapsulate`.
  unfoldable pub shared_coordinate : Option K → P → Outcome StatusCode (List ℕ)
  shared_coordinate none pk = err invalid_parameter
  shared_coordinate (some secret) pk =
      let raw = prim.diffie_hellman secret pk in
      if length raw == 32 then ok raw else err invalid_parameter

  unfoldable pub agreed : Option K → Option (List ℕ) × Option (List ℕ) → Outcome StatusCode (List ℕ)
  agreed secret (some x, some y) =
      if not (length x == 32) || not (length y == 32)
      then err invalid_parameter
      else elim (prim.from_sec1 (0x04 ∷ x ++ y)) [
        | none ↦ err invalid_parameter
        | some pk ↦ shared_coordinate secret pk
      ]
  agreed secret found = err invalid_parameter

  unfoldable pub decapsulate : PinAgreement K → CborValue → Outcome StatusCode (List ℕ)
  decapsulate agree (map entries) = agreed agree.secret (read_coordinates entries (none, none))
  decapsulate agree peer_key = err invalid_parameter
