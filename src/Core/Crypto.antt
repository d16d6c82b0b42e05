-- ===== src/Core/Crypto.antt =====
-- crates/fidoh-core/src/crypto.rs: the PIN/UV auth protocols over the primitives of other crates.
pub mod Agreement
pub mod Blocks
mod Examples
use Prim.Native.String.{String}
use fidoh.Base.{
  ℕ, zero, suc, ◌%◌, ◌==◌, ltb, if◌then◌else◌, Bool, true, false, not, ◌||◌, List, [], ◌∷◌, ◌++◌,
  length, take, drop, replicate, Outcome, ok, err, ◌>>=◌, Option, none, some,
}
use fidoh.Core.Cbor.{ℤ, pos, negsuc, CborValue, int, bytes, map, Entries, end, entry}
use fidoh.Core.Messages.{ascii}
use fidoh.Core.Messages.Cose.{int_eq}
use fidoh.Core.Messages.Pin.{PinUvAuthProtocol, one, two, other}
use fidoh.Core.Ceremony.Run.{PinCrypto}

-- `COSE_ALG_PIN_UV`.
abbrev pub cose_alg_pin_uv : ℤ
cose_alg_pin_uv = negsuc 24

-- `HKDF_INFO_HMAC_KEY` and `HKDF_INFO_AES_KEY`.
abbrev pub hkdf_info_hmac_key : List ℕ
hkdf_info_hmac_key = ascii "CTAP2 HMAC key"

abbrev pub hkdf_info_aes_key : List ℕ
hkdf_info_aes_key = ascii "CTAP2 AES key"

pub data PinCryptoError : Type 0 where
  bad_peer_key : String → PinCryptoError
  bad_ciphertext_length decrypt_failed key_generation random : PinCryptoError

-- The crates sha2, hmac, hkdf, aes with cbc and p256, with secret keys `K` and public keys `P`, and
-- the caller's entropy, a part of `W`, with its own errors. AES-256-CBC runs on whole blocks, HKDF yields 32 bytes.
pub record Primitives (W K P : Type 0) : Type 0 where
  pub sha256 : List ℕ → List ℕ
  pub hmac_sha256 : (key message : List ℕ) → List ℕ
  pub hkdf_sha256 : (salt ikm info : List ℕ) → List ℕ
  pub aes_encrypt : (key iv blocks : List ℕ) → List ℕ
  pub aes_decrypt : (key iv blocks : List ℕ) → List ℕ
  pub secret_key : List ℕ → Option K
  pub public_key : K → P
  pub x_of : P → List ℕ
  pub y_of : P → List ℕ
  pub from_sec1 : List ℕ → Option P
  pub diffie_hellman : K → P → List ℕ
  pub fill_random : ℕ → W → Outcome PinCryptoError (List ℕ) × W

pub record SharedSecret : Type 0 where
  pub bytes : List ℕ
  pub protocol : PinUvAuthProtocol

-- `int_of` and `bytes_of`.
unfoldable pub int_of : CborValue → Option ℤ
int_of (int n) = some n
int_of v = none

unfoldable pub bytes_of : CborValue → Option (List ℕ)
bytes_of (bytes b) = some b
bytes_of v = none

-- The local variables of `parse_peer_p256_key`.
pub record PeerMembers : Type 0 where
  pub kty : Option ℤ
  pub alg : Option ℤ
  pub crv : Option ℤ
  pub x : Option (List ℕ)
  pub y : Option (List ℕ)

unfoldable pub read_peer_label : ℤ → CborValue → PeerMembers → PeerMembers
read_peer_label label v m =
    if int_eq label (pos 1)
    then record m { kty = int_of v }
    else if int_eq label (pos 3)
    then record m { alg = int_of v }
    else if int_eq label (negsuc 0)
    then record m { crv = int_of v }
    else if int_eq label (negsuc 1)
    then record m { x = bytes_of v }
    else if int_eq label (negsuc 2)
    then record m { y = bytes_of v }
    else m

unfoldable pub read_peer_entries : Entries → PeerMembers → PeerMembers
read_peer_entries end m = m
read_peer_entries (entry (int label) v entries) m =
    read_peer_entries entries (read_peer_label label v m)
read_peer_entries (entry k v entries) m = read_peer_entries entries m

-- `kty != Some(n)`, and `alg.is_some_and(|a| a != n)`.
unfoldable pub is_not : Option ℤ → ℤ → Bool
is_not none n = true
is_not (some m) n = not (int_eq m n)

unfoldable pub is_other : Option ℤ → ℤ → Bool
is_other none n = false
is_other (some m) n = not (int_eq m n)

-- `SharedSecret::hmac_key` and `SharedSecret::aes_key`.
abbrev hmac_key : SharedSecret → List ℕ
hmac_key s = take 32 s.bytes

unfoldable pub aes_key : SharedSecret → List ℕ
aes_key s = elim s.protocol [
  | one ↦ take 32 s.bytes
  | two ↦ drop 32 s.bytes
  | other v ↦ drop 32 s.bytes
]

-- A length that is no positive number of blocks.
unfoldable pub no_blocks : List ℕ → Bool
no_blocks b = (length b == 0) || not (length b % 16 == 0)

-- `pin_uv_auth_param_message`.
abbrev pub pin_uv_auth_param_message : List ℕ → List ℕ
pin_uv_auth_param_message client_data_hash = client_data_hash

abbrev pub ok_or_none : {A : Type 0} → Outcome PinCryptoError A → Option A
ok_or_none (ok a) = some a
ok_or_none (err e) = none

module _ {W K P : Type 0} (prim : Primitives W K P) where
  unfoldable pub public_point : Option P → Outcome PinCryptoError P
  public_point none = err (bad_peer_key "off-curve point")
  public_point (some p) = ok p

  unfoldable pub peer_point : Option (List ℕ) → Option (List ℕ) → Outcome PinCryptoError P
  peer_point none y = err (bad_peer_key "missing coordinates")
  peer_point (some x) none = err (bad_peer_key "missing coordinates")
  peer_point (some x) (some y) =
      if not (length x == 32) || not (length y == 32)
      then err (bad_peer_key "coordinates are not 32 bytes")
      else public_point (prim.from_sec1 (0x04 ∷ x ++ y))

  -- The checks of `parse_peer_p256_key` behind its loop.
  unfoldable pub checked_peer : PeerMembers → Outcome PinCryptoError P
  checked_peer m =
      if is_not m.kty (pos 2)
      then err (bad_peer_key "kty is not EC2")
      else if is_other m.alg cose_alg_pin_uv
      then err (bad_peer_key "alg is not -25")
      else if is_not m.crv (pos 1)
      then err (bad_peer_key "crv is not P-256")
      else peer_point m.x m.y

  -- `parse_peer_p256_key`.
  unfoldable pub parse_peer_p256_key : CborValue → Outcome PinCryptoError P
  parse_peer_p256_key (map entries) = checked_peer (
      read_peer_entries entries (record { kty = none; alg = none; crv = none; x = none; y = none }))
  parse_peer_p256_key v = err (bad_peer_key "not a CBOR map")

  -- A draw of `PlatformKeyAgreement::generate`, before the draws that are left.
  unfoldable pub generate : ℕ → W → Outcome PinCryptoError K × W
  generate zero w = (err key_generation, w)
  generate (suc draws) w =
      let (drawn, w') = prim.fill_random 32 w in
      let more = generate draws w' in
      elim drawn [
        | err e ↦ (err e, w')
        | ok b ↦ elim (prim.secret_key b) [ some sk ↦ (ok sk, w') | none ↦ more ]
      ]

  -- `PlatformKeyAgreement::cose_key`.
  unfoldable pub cose_key : K → CborValue
  cose_key secret = map (
      entry (int (pos 1)) (int (pos 2)) (
        entry (int (pos 3)) (int cose_alg_pin_uv) (
          entry (int (negsuc 0)) (int (pos 1)) (
            entry (int (negsuc 1)) (bytes (prim.x_of (prim.public_key secret)))
              (entry (int (negsuc 2)) (bytes (prim.y_of (prim.public_key secret))) end)))))

  -- `SharedSecret::derive`: the 64 bytes of both keys.
  unfoldable pub derive : List ℕ → PinUvAuthProtocol → SharedSecret
  derive z one = record { bytes = prim.sha256 z ++ replicate 32 0; protocol = one }
  derive z protocol = record {
    bytes =
        prim.hkdf_sha256 (replicate 32 0) z hkdf_info_hmac_key
        ++ prim.hkdf_sha256 (replicate 32 0) z hkdf_info_aes_key;
    protocol = protocol;
  }

  -- `PlatformKeyAgreement::encapsulate`.
  unfoldable pub encapsulate :
      K → CborValue → PinUvAuthProtocol → Outcome PinCryptoError SharedSecret
  encapsulate secret peer protocol = parse_peer_p256_key peer >>= λ key.
      let z = prim.diffie_hellman secret key in
      if not (length z == 32)
      then err (bad_peer_key "shared point x-coordinate length")
      else ok (derive z protocol)

  -- `SharedSecret::authenticate`.
  unfoldable pub authenticate : SharedSecret → List ℕ → List ℕ → List ℕ
  authenticate s key message = elim s.protocol [
    | one ↦ take 16 (prim.hmac_sha256 key message)
    | two ↦ prim.hmac_sha256 key message
    | other v ↦ prim.hmac_sha256 key message
  ]

  -- The arm of `SharedSecret::encrypt` that draws an initialization vector.
  unfoldable pub encrypt_fresh :
      SharedSecret → List ℕ → Outcome PinCryptoError (List ℕ) → Outcome PinCryptoError (List ℕ)
  encrypt_fresh s plaintext (err e) = err e
  encrypt_fresh s plaintext (ok iv) = ok (iv ++ prim.aes_encrypt (aes_key s) iv plaintext)

  -- `SharedSecret::encrypt`.
  unfoldable pub encrypt : SharedSecret → List ℕ → W → Outcome PinCryptoError (List ℕ) × W
  encrypt s plaintext w =
      let (drawn, w') = prim.fill_random 16 w in
      let fresh : Outcome PinCryptoError (List ℕ) × W = (encrypt_fresh s plaintext drawn, w') in
      if no_blocks plaintext then (err bad_ciphertext_length, w) else elim s.protocol [
        | one ↦ (ok (prim.aes_encrypt (aes_key s) (replicate 16 0) plaintext), w)
        | two ↦ fresh
        | other v ↦ fresh
      ]

  -- The arm of `SharedSecret::decrypt` that splits an initialization vector off.
  unfoldable pub decrypt_fresh : SharedSecret → List ℕ → Outcome PinCryptoError (List ℕ)
  decrypt_fresh s ciphertext =
      if ltb (length ciphertext) 16
      then err bad_ciphertext_length
      else if no_blocks (drop 16 ciphertext)
      then err bad_ciphertext_length
      else ok (prim.aes_decrypt (aes_key s) (take 16 ciphertext) (drop 16 ciphertext))

  -- `SharedSecret::decrypt`.
  unfoldable pub decrypt : SharedSecret → List ℕ → Outcome PinCryptoError (List ℕ)
  decrypt s ciphertext = elim s.protocol [
    | one ↦
        if no_blocks ciphertext
        then err bad_ciphertext_length
        else ok (prim.aes_decrypt (aes_key s) (replicate 16 0) ciphertext)
    | two ↦ decrypt_fresh s ciphertext
    | other v ↦ decrypt_fresh s ciphertext
  ]

  -- The operations that a ceremony uses, from eight draws on; the texts of their errors are left out.
  abbrev pub pin_crypto : PinCrypto W K SharedSecret
  pin_crypto = record {
    generate = λ w. let (made, w') = generate 8 w in (ok_or_none made, w');
    cose_key = cose_key;
    encapsulate = λ k v p. ok_or_none (encapsulate k v p);
    encrypt = λ s b w. let (c, w') = encrypt s b w in (ok_or_none c, w');
    decrypt = λ s c. ok_or_none (decrypt s c);
    authenticate = authenticate;
    param_message = pin_uv_auth_param_message;
    sha256 = prim.sha256;
  }
