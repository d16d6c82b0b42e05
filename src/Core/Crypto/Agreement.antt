-- ===== src/Core/Crypto/Agreement.antt =====
-- The key agreement of crypto.rs: both sides come to one shared secret.
use fidoh.Base.{◌≡◌, refl, ◌∷◌, ◌++◌, length, ok, some}
use fidoh.Core.Messages.Cose.{int_eq}
use fidoh.Core.Messages.Pin.{PinUvAuthProtocol}
use fidoh.Core.Crypto.{
  Primitives, SharedSecret, int_of, bytes_of, read_peer_label, read_peer_entries, is_not, is_other,
  public_point, peer_point, checked_peer, parse_peer_p256_key, cose_key, derive, encapsulate,
}

-- What the curve crate documents: a public key has coordinates of 32 bytes, from which it is rebuilt,
-- and the shared coordinate of 32 bytes does not depend on the side.
pub record IsCurve {W K P : Type 0} (prim : Primitives W K P) : Type 0 where
  pub x_length : (k : K) → length (prim.x_of (prim.public_key k)) ≡ 32
  pub y_length : (k : K) → length (prim.y_of (prim.public_key k)) ≡ 32
  pub rebuilt :
      (k : K)
      → prim.from_sec1 (0x04 ∷ prim.x_of (prim.public_key k) ++ prim.y_of (prim.public_key k))
        ≡ some (prim.public_key k)
  pub shared :
      (j k : K)
      → prim.diffie_hellman j (prim.public_key k) ≡ prim.diffie_hellman k (prim.public_key j)
  pub shared_length : (j k : K) → length (prim.diffie_hellman j (prim.public_key k)) ≡ 32

module _ {W K P : Type 0} (prim : Primitives W K P) (curve : IsCurve prim) where
  peer_key_read : (k : K) → parse_peer_p256_key prim (cose_key prim k) ≡ ok (prim.public_key k)
  unfolding parse_peer_p256_key cose_key read_peer_entries read_peer_label int_of bytes_of int_eq
      checked_peer is_not is_other peer_point public_point
  peer_key_read k = rw (curve.x_length k, curve.y_length k, curve.rebuilt k) refl

  derived :
      (j k : K) (protocol : PinUvAuthProtocol)
      → encapsulate prim j (cose_key prim k) protocol
        ≡ ok (derive prim (prim.diffie_hellman j (prim.public_key k)) protocol)
  unfolding encapsulate
  derived j k protocol = rw (peer_key_read k, curve.shared_length j k) refl

  -- With a curve crate that rebuilds the public keys it made and gives both sides one shared coordinate
  -- of 32 bytes: when each side encapsulates to the key that the other one sends, both succeed with the
  -- same secret, under every protocol.
  pub encapsulate_agrees :
      (j k : K) (protocol : PinUvAuthProtocol)
      → (s : SharedSecret) × (encapsulate prim j (cose_key prim k) protocol ≡ ok s)
        × (encapsulate prim k (cose_key prim j) protocol ≡ ok s)
  encapsulate_agrees j k protocol = (
    derive prim (prim.diffie_hellman j (prim.public_key k)) protocol,
    derived j k protocol,
    rw (curve.shared j k) (derived k j protocol),
  )
