-- ===== src/Core/Messages/Cose.antt =====
-- crates/fidoh-core/src/cose.rs: the COSE_Key of ES256.
use fidoh.Base.{
  ℕ, ◌==◌, leb, if◌then◌else◌, Bool, false, not, ◌&&◌, List, Outcome, ok, err, ◌>>=◌, Option, none,
  some,
}
use fidoh.Core.Cbor.{ℤ, pos, negsuc, CborValue, int, bytes, map, end, entry}
use fidoh.Core.Cbor.Encode.{EncodeError, encode}
use fidoh.Core.Cbor.Decode.{invalid_value}
use fidoh.Core.Messages.{Reads, int_member, bytes_member, required, entries_of, read_entries}

-- `==` on an i128.
unfoldable pub int_eq : ℤ → ℤ → Bool
int_eq (pos m) (pos n) = m == n
int_eq (negsuc m) (negsuc n) = m == n
int_eq m n = false

-- The labels: `LABEL_KTY`, `LABEL_ALG`, `LABEL_CRV`, `LABEL_X` and `LABEL_Y`.
abbrev pub label_kty : ℤ
label_kty = pos 1

abbrev pub label_alg : ℤ
label_alg = pos 3

abbrev pub label_crv : ℤ
label_crv = negsuc 0

abbrev pub label_x : ℤ
label_x = negsuc 1

abbrev pub label_y : ℤ
label_y = negsuc 2

-- `KTY_EC2`, `ALG_ES256` and `CRV_P256`.
abbrev pub kty_ec2 : ℤ
kty_ec2 = pos 2

abbrev pub alg_es256 : ℤ
alg_es256 = negsuc 6

abbrev pub crv_p256 : ℤ
crv_p256 = pos 1

pub record CoseEs256Key : Type 0 where
  pub x : List ℕ
  pub y : List ℕ

-- `to_cbor`.
unfoldable pub to_cbor : CoseEs256Key → CborValue
to_cbor key = map (
    entry (int label_kty) (int kty_ec2) (
      entry (int label_alg) (int alg_es256) (
        entry (int label_crv) (int crv_p256)
          (entry (int label_x) (bytes key.x) (entry (int label_y) (bytes key.y) end)))))

-- `CoseEs256Key::encode`.
pub encode_key : CoseEs256Key → Outcome EncodeError (List ℕ)
encode_key key = encode (to_cbor key)

-- What `from_cbor` collects from the entries.
pub record KeyMembers : Type 0 where
  pub kty : Option ℤ
  pub alg : Option ℤ
  pub crv : Option ℤ
  pub x : Option (List ℕ)
  pub y : Option (List ℕ)

abbrev pub no_key_members : KeyMembers
no_key_members = record { kty = none; alg = none; crv = none; x = none; y = none }

-- An arm of the loop of `from_cbor`.
unfoldable pub read_key_label : ℤ → CborValue → KeyMembers → Reads KeyMembers
read_key_label label v m =
    if int_eq label label_kty
    then (int_member v "kty" >>= λ n. ok (record m { kty = some n }))
    else if int_eq label label_alg
    then (int_member v "alg" >>= λ n. ok (record m { alg = some n }))
    else if int_eq label label_crv
    then (int_member v "crv" >>= λ n. ok (record m { crv = some n }))
    else if int_eq label label_x
    then (bytes_member v "x" >>= λ b. ok (record m { x = some b }))
    else if int_eq label label_y
    then (bytes_member v "y" >>= λ b. ok (record m { y = some b }))
    else ok m

unfoldable pub read_key_entry : CborValue → CborValue → KeyMembers → Reads KeyMembers
read_key_entry (int label) v m = read_key_label label v m
read_key_entry k v m = ok m

-- `matches!(crv, 1..=3)`.
unfoldable pub ec2_curve : ℤ → Bool
ec2_curve (pos n) = leb 1 n && leb n 3
ec2_curve (negsuc n) = false

other_alg : Option ℤ → Bool
other_alg none = false
other_alg (some alg) = not (int_eq alg alg_es256)

-- The checks of `from_cbor` behind its loop.
unfoldable pub checked_key : KeyMembers → Reads CoseEs256Key
unfolding other_alg
checked_key m = required m.kty "kty" >>= λ kty.
    if not (int_eq kty kty_ec2)
    then err (invalid_value "kty")
    else if other_alg m.alg
    then err (invalid_value "alg")
    else required m.crv "crv" >>= λ crv.
        if not (ec2_curve crv)
        then err (invalid_value "crv")
        else if not (int_eq crv crv_p256)
        then err (invalid_value "crv")
        else required m.x "x" >>= λ x. required m.y "y" >>= λ y. ok (record { x = x; y = y })

-- `from_cbor`.
unfoldable pub from_cbor : CborValue → Reads CoseEs256Key
from_cbor value = entries_of value "coseKey" >>= λ entries.
    read_entries read_key_entry entries no_key_members >>= checked_key
