-- ===== src/Core/Crypto/Examples.antt =====
-- Concrete primitives with the documented behaviour, and what the theorems on crypto.rs say of them.
use fidoh.Base.{
  ℕ, ◌+◌, ◌≡◌, refl, sym, ap, ◌∙◌, arith, List, ◌∷◌, ◌++◌, length, length-replicate, get_elem?,
  get_or, replicate, Outcome, ok, some,
}
use fidoh.Core.Messages.Pin.{two}
use fidoh.Core.Crypto.{
  PinCryptoError, Primitives, SharedSecret, encrypt, encrypt_fresh, decrypt, no_blocks, cose_key,
  encapsulate,
}
use fidoh.Core.Crypto.Blocks.{IsCipher, encrypt_round_trip}
use fidoh.Core.Crypto.Agreement.{IsCurve, encapsulate_agrees}

abbrev word : ℕ → List ℕ
word n = n ∷ replicate 31 0

abbrev toy : Primitives ℕ ℕ ℕ
toy = record {
  sha256 = λ b. word (length b);
  hmac_sha256 = λ key message. word (length message);
  hkdf_sha256 = λ salt ikm info. word (length info);
  aes_encrypt = λ key iv blocks. blocks;
  aes_decrypt = λ key iv blocks. blocks;
  secret_key = λ b. some (get_or b 0 0);
  public_key = λ k. k;
  x_of = λ p. word p;
  y_of = λ p. word 0;
  from_sec1 = λ b. get_elem? b 1;
  diffie_hellman = λ j p. word (j + p);
  fill_random = λ n w. (ok (replicate n w), w);
}

drawn_inj :
    {a b : List ℕ} {w w' : ℕ}
    → ◌≡◌ {A = Outcome PinCryptoError (List ℕ) × ℕ} (ok a, w) (ok b, w')
    → a ≡ b
drawn_inj h = cc

toy-IsCipher : IsCipher toy
toy-IsCipher = record {
  inverse = λ key iv blocks h. refl;
  whole = λ key iv blocks h. refl;
  filled = λ n w w' b h. ap length (sym (drawn_inj h)) ∙ length-replicate n w;
}

toy-IsCurve : IsCurve toy
toy-IsCurve = record {
  x_length = λ k. refl;
  y_length = λ k. refl;
  rebuilt = λ k. refl;
  shared = λ j k. ap word (omega arith);
  shared_length = λ j k. refl;
}

abbrev sample_secret : SharedSecret
sample_secret = record { bytes = replicate 64 1; protocol = two }

encrypt_round_trip_example :
    decrypt toy sample_secret (replicate 16 9 ++ replicate 16 5) ≡ ok (replicate 16 5)
unfolding encrypt encrypt_fresh no_blocks
encrypt_round_trip_example =
    encrypt_round_trip toy toy-IsCipher sample_secret (replicate 16 5)
      (replicate 16 9 ++ replicate 16 5) 9 9 refl

encapsulate_agrees_example :
    (s : SharedSecret) × (encapsulate toy 3 (cose_key toy 4) two ≡ ok s)
    × (encapsulate toy 4 (cose_key toy 3) two ≡ ok s)
encapsulate_agrees_example = encapsulate_agrees toy toy-IsCurve 3 4 two
