-- ===== src/Core/Crypto/Blocks.antt =====
-- The ciphers of crypto.rs: what `encrypt` returns is read back by `decrypt`, under both protocols.
use fidoh.Base.{
  ℕ, ◌%◌, ltb, if◌then◌else◌, ◌≡◌, refl, sym, ap, ◌∙◌, subst, arith, Bool, true, false, List, ◌++◌,
  length, replicate, length-append, take-append_front, drop-append_front, Outcome, ok, err, ok_inj,
  Outcome-cases, inl, inr,
}
use fidoh.Core.Messages.Pin.{PinUvAuthProtocol, one, two, other}
use fidoh.Core.Crypto.{
  PinCryptoError, Primitives, SharedSecret, aes_key, no_blocks, encrypt_fresh, encrypt,
  decrypt_fresh, decrypt,
}

-- What the cipher crate and an entropy source document: AES-256-CBC without padding maps whole blocks
-- to as many and back, and a draw fills the bytes asked for.
pub record IsCipher {W K P : Type 0} (prim : Primitives W K P) : Type 0 where
  pub inverse :
      (key iv blocks : List ℕ)
      → length blocks % 16 ≡ 0
      → prim.aes_decrypt key iv (prim.aes_encrypt key iv blocks) ≡ blocks
  pub whole :
      (key iv blocks : List ℕ)
      → length blocks % 16 ≡ 0
      → length (prim.aes_encrypt key iv blocks) ≡ length blocks
  pub filled :
      (n : ℕ) (w w' : W) (b : List ℕ)
      → ◌≡◌ {A = Outcome PinCryptoError (List ℕ) × W} (prim.fill_random n w) (ok b, w')
      → length b ≡ n

blocks_kept :
    (b c : List ℕ)
    → no_blocks b ≡ false
    → length c ≡ length b
    → (no_blocks c ≡ false) × (length b % 16 ≡ 0)
unfolding no_blocks
blocks_kept b c h e = ground (arith, h, e)

guarded :
    {A W : Type 0} (c : Bool) (e : PinCryptoError) (w : W) (m : Outcome PinCryptoError A × W)
    {a : A} {w' : W}
    → ◌≡◌ {A = Outcome PinCryptoError A × W} (if c then (err e, w) else m) (ok a, w')
    → (c ≡ false) × (m ≡ (ok a, w'))
guarded true e w m h = absurd cc
guarded false e w m h = (refl, h)

pair_outcome :
    {A W : Type 0} {r : Outcome PinCryptoError A} {a : A} {w w' : W}
    → ◌≡◌ {A = Outcome PinCryptoError A × W} (r, w) (ok a, w')
    → r ≡ ok a
pair_outcome h = cc

module _ {W K P : Type 0} (prim : Primitives W K P) (cipher : IsCipher prim) where
  split_read :
      (s : SharedSecret) (plaintext iv ct : List ℕ)
      → no_blocks ct ≡ false
      → length iv ≡ 16
      → prim.aes_decrypt (aes_key s) iv ct ≡ plaintext
      → decrypt_fresh prim s (iv ++ ct) ≡ ok plaintext
  unfolding decrypt_fresh
  split_read s plaintext iv ct k e r =
      let long : ltb (length (iv ++ ct)) 16 ≡ false = ground (arith, length-append iv ct) in
      rw (long, drop-append_front iv ct 16 (sym e), take-append_front iv ct 16 (sym e), k, r) refl

  fresh_read :
      (s : SharedSecret) (plaintext ciphertext : List ℕ) (w w' : W)
      → no_blocks plaintext ≡ false
      → ◌≡◌ {A = Outcome PinCryptoError (List ℕ) × W}
          (encrypt_fresh prim s plaintext (prim.fill_random 16 w).0, (prim.fill_random 16 w).1)
          (ok ciphertext, w')
      → decrypt_fresh prim s ciphertext ≡ ok plaintext
  unfolding encrypt_fresh
  fresh_read s plaintext ciphertext w w' h r = elim (Outcome-cases (prim.fill_random 16 w).0) [
    | inr (bad, e) ↦ absurd (cc (pair_outcome r, e))
    | inl (iv, e) ↦
        let ct = prim.aes_encrypt (aes_key s) iv plaintext in
        let z = (blocks_kept plaintext plaintext h refl).1 in
        let kept = blocks_kept plaintext ct h (cipher.whole (aes_key s) iv plaintext z) in
        let full =
          cipher.filled 16 w (prim.fill_random 16 w).1 iv
            (ap (λ d. (d, (prim.fill_random 16 w).1)) e) in
        let written : ok (iv ++ ct) ≡ ok ciphertext =
          sym (ap (encrypt_fresh prim s plaintext) e) ∙ pair_outcome r in
        subst (λ c. decrypt_fresh prim s c ≡ ok plaintext) (ok_inj written)
          (split_read s plaintext iv ct kept.0 full (cipher.inverse (aes_key s) iv plaintext z))
  ]

  abbrev secret : List ℕ → PinUvAuthProtocol → SharedSecret
  secret b p = record { bytes = b; protocol = p }

  read_back :
      (b : List ℕ) (p : PinUvAuthProtocol) (plaintext ciphertext : List ℕ) (w w' : W)
      → encrypt prim (secret b p) plaintext w ≡ (ok ciphertext, w')
      → decrypt prim (secret b p) ciphertext ≡ ok plaintext
  unfolding encrypt decrypt
  read_back b one plaintext ciphertext w w' h =
      let (k, r) = guarded (no_blocks plaintext) _ w _ h in
      let iv = replicate 16 0 in
      let ct = prim.aes_encrypt (aes_key (secret b one)) iv plaintext in
      let z = (blocks_kept plaintext plaintext k refl).1 in
      let kept =
        blocks_kept plaintext ct k (cipher.whole (aes_key (secret b one)) iv plaintext z) in
      subst (λ c. decrypt prim (secret b one) c ≡ ok plaintext) (ok_inj (pair_outcome r))
        (rw (kept.0, cipher.inverse (aes_key (secret b one)) iv plaintext z) refl)
  read_back b two plaintext ciphertext w w' h =
      let (k, r) = guarded (no_blocks plaintext) _ w _ h in
      fresh_read (secret b two) plaintext ciphertext w w' k r
  read_back b (other v) plaintext ciphertext w w' h =
      let (k, r) = guarded (no_blocks plaintext) _ w _ h in
      fresh_read (secret b (other v)) plaintext ciphertext w w' k r

  -- With a cipher that maps whole blocks to as many and back, and draws of the length asked for, what
  -- `encrypt` returns for a secret of any protocol is read back by `decrypt`.
  pub encrypt_round_trip :
      (s : SharedSecret) (plaintext ciphertext : List ℕ) (w w' : W)
      → encrypt prim s plaintext w ≡ (ok ciphertext, w')
      → decrypt prim s ciphertext ≡ ok plaintext
  encrypt_round_trip s plaintext ciphertext w w' h =
      read_back s.bytes s.protocol plaintext ciphertext w w' h
