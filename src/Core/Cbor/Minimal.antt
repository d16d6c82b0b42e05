-- ===== src/Core/Cbor/Minimal.antt =====
-- The strict reading of an argument in cbor.rs takes only the head that `write_head` writes.
use fidoh.Base.{
  ℕ, suc, ◌+◌, ◌*◌, ◌%◌, ◌^◌, ◌<◌, ◌≤◌, ◌≡◌, refl, sym, ap, arith, List, [], ◌∷◌, ◌++◌, length,
  take, drop, from_be_bytes, to_be_bytes, bit_or, Bool, true, false, Outcome, ok, err, ◌>>=◌, All,
  IsByte, ltb, leb, if◌then◌else◌, ◌==◌, ◌&&◌, Bool-cases, inl, inr, take-append-drop, length-take,
  length_zero, zero, subst,
}
use fidoh.Core.Cbor.Encode.{write_head}
use fidoh.Core.Cbor.Decode.{Decoder, take_bytes, wide_argument, argument_impl}

-- A bind that comes out well, taken apart.
pub bind_ok {ℓ κ μ} :
    {E : Type μ} {A : Type ℓ} {B : Type κ} (m : Outcome E A) (f : A → Outcome E B) {b : B}
    → (m >>= f) ≡ ok b
    → (a : A) × (m ≡ ok a) × (f a ≡ ok b)
bind_ok (ok a) f h = (a, refl, h)
bind_ok (err e) f h = absurd cc

-- A guard that let the run pass.
pub guard_ok {ℓ μ} :
    {E : Type μ} {A : Type ℓ} (c : Bool) (e : E) (m : Outcome E A) {a : A}
    → (if c then err e else m) ≡ ok a
    → (c ≡ false) × (m ≡ ok a)
guard_ok true e m h = absurd cc
guard_ok false e m h = (refl, h)

-- A word's bytes are those of their number.
abbrev WordBytes : ℕ → List ℕ → Type 0
WordBytes n xs = (to_be_bytes n (from_be_bytes xs) ≡ xs) × (from_be_bytes xs < 256 ^ n)

uncons :
    (n : ℕ) (xs : List ℕ)
    → length xs ≡ suc n
    → All IsByte xs
    → (a : ℕ) × (ys : List ℕ) × (xs ≡ a ∷ ys) × IsByte a × (length ys ≡ n) × All IsByte ys
uncons n [] h y = absurd (omega arith)
uncons n (a ∷ ys) h y = (a, ys, refl, y.0, omega arith, y.1)

word_1 : (a : ℕ) → IsByte a → WordBytes 1 (a ∷ [])
word_1 a ha = ground arith

word_2 : (a b : ℕ) → IsByte a → IsByte b → WordBytes 2 (a ∷ b ∷ [])
word_2 a b ha hb = ground arith

word_4 :
    (a b c d : ℕ) → IsByte a → IsByte b → IsByte c → IsByte d → WordBytes 4 (a ∷ b ∷ c ∷ d ∷ [])
word_4 a b c d ha hb hc hd = ground arith

word_8 :
    (a b c d e f g h : ℕ)
    → IsByte a
    → IsByte b
    → IsByte c
    → IsByte d
    → IsByte e
    → IsByte f
    → IsByte g
    → IsByte h
    → WordBytes 8 (a ∷ b ∷ c ∷ d ∷ e ∷ f ∷ g ∷ h ∷ [])
word_8 a b c d e f g h ha hb hc hd he hf hg hh = ground arith

words_1 : (xs : List ℕ) → length xs ≡ 1 → All IsByte xs → WordBytes 1 xs
words_1 (a ∷ []) n (ha, u) = word_1 a ha
words_1 [] n y = absurd (omega arith)
words_1 (a ∷ b ∷ xs) n y = absurd (omega arith)

words_2 : (xs : List ℕ) → length xs ≡ 2 → All IsByte xs → WordBytes 2 xs
words_2 xs n y =
    let (a, ys, e, ha, n1, y1) = uncons 1 xs n y in
    let (b, zs, e1, hb, n2, y2) = uncons 0 ys n1 y1 in
    rw (e, e1, length_zero zs n2) (word_2 a b ha hb)

words_4 : (xs : List ℕ) → length xs ≡ 4 → All IsByte xs → WordBytes 4 xs
words_4 xs n y =
    let (a, ys, e, ha, n1, y1) = uncons 3 xs n y in
    let (b, zs, e1, hb, n2, y2) = uncons 2 ys n1 y1 in
    let (c, us, e2, hc, n3, y3) = uncons 1 zs n2 y2 in
    let (d, vs, e3, hd, n4, y4) = uncons 0 us n3 y3 in
    rw (e, e1, e2, e3, length_zero vs n4) (word_4 a b c d ha hb hc hd)

words_8 : (xs : List ℕ) → length xs ≡ 8 → All IsByte xs → WordBytes 8 xs
words_8 xs n y =
    let (a, x1, e1, ha, n1, y1) = uncons 7 xs n y in
    let (b, x2, e2, hb, n2, y2) = uncons 6 x1 n1 y1 in
    let (c, x3, e3, hc, n3, y3) = uncons 5 x2 n2 y2 in
    let (d, x4, e4, hd, n4, y4) = uncons 4 x3 n3 y3 in
    let (e, x5, e5, he, n5, y5) = uncons 3 x4 n4 y4 in
    let (f, x6, e6, hf, n6, y6) = uncons 2 x5 n5 y5 in
    let (g, x7, e7, hg, n7, y7) = uncons 1 x6 n6 y6 in
    let (h, x8, e8, hh, n8, y8) = uncons 0 x7 n7 y7 in
    rw (e1, e2, e3, e4, e5, e6, e7, e8, length_zero x8 n8)
      (word_8 a b c d e f g h ha hb hc hd he hf hg hh)

All-take : (n : ℕ) (xs : List ℕ) → All IsByte xs → All IsByte (take n xs)
All-take zero xs y = tt
All-take (suc n) [] y = tt
All-take (suc n) (x ∷ xs) y = (y.0, All-take n xs y.1)

pub All-drop : (n : ℕ) (xs : List ℕ) → All IsByte xs → All IsByte (drop n xs)
All-drop zero xs y = y
All-drop (suc n) [] y = tt
All-drop (suc n) (x ∷ xs) y = All-drop n xs y.1

-- What a reader has consumed between two states.
pub record Consumed (d d' : Decoder) (used : List ℕ) : Type 0 where
  pub input : d.rest ≡ used ++ d'.rest
  pub moved : d'.at ≡ d.at + length used
  pub left : All IsByte d'.rest

-- `Decoder::take` consumes what it returns.
pub take_bytes-Consumed :
    (n offset : ℕ) (d d' : Decoder) (xs : List ℕ)
    → take_bytes n offset d ≡ ok (xs, d')
    → All IsByte d.rest
    → Consumed d d' xs × (length xs ≡ n) × All IsByte xs
unfolding take_bytes
take_bytes-Consumed n offset d d' xs h y =
    let (enough, e) = guard_ok (ltb (length d.rest) n) _ _ h in
    let xs_is : take n d.rest ≡ xs = cc in
    let rest_is : drop n d.rest ≡ d'.rest = cc in
    let at_is : d.at + n ≡ d'.at = cc in
    let size : length xs ≡ n = rw (← xs_is) (ground (arith, length-take n d.rest)) in
    (
      record {
        input = sym (rw (← xs_is, ← rest_is) (take-append-drop n d.rest));
        moved = omega arith;
        left = rw (← rest_is) (All-drop n d.rest y);
      },
      size,
      rw (← xs_is) (All-take n d.rest y),
    )

wide_minimal :
    (n least offset arg : ℕ) (d d' : Decoder)
    → wide_argument n least offset true d ≡ ok (arg, d')
    → All IsByte d.rest
    → (used : List ℕ) × Consumed d d' used
      × (length used ≡ n)
      × All IsByte used
      × (from_be_bytes used ≡ arg)
      × (least ≤ arg)
unfolding wide_argument
wide_minimal n least offset arg d d' h y =
    let (read, e, rest) = bind_ok (take_bytes n offset d) _ h in
    let (long, e2) = guard_ok (true && ltb (from_be_bytes read.0) least) _ _ rest in
    let value_is : from_be_bytes read.0 ≡ arg = cc in
    let state_is : read.1 ≡ d' = cc in
    let (c, size, bytes) = take_bytes-Consumed n offset d read.1 read.0 e y in
    (
      read.0,
      subst (λ (s : Decoder). Consumed d s read.0) state_is c,
      size,
      bytes,
      value_is,
      ground arith,
    )

-- What a strict reading of an argument shows: its head is the one that `write_head` writes.
pub record IsMinimal (major info arg : ℕ) (d d' : Decoder) : Type 0 where
  pub used : List ℕ
  pub consumed : Consumed d d' used
  pub canonical : write_head major arg ≡ bit_or (major * 32 % 256) info ∷ used
  pub small : arg < 2 ^ 64

wide_1-IsMinimal :
    (major offset arg : ℕ) (d d' : Decoder)
    → wide_argument 1 24 offset true d ≡ ok (arg, d')
    → All IsByte d.rest
    → IsMinimal major 24 arg d d'
unfolding write_head
wide_1-IsMinimal major offset arg d d' h y =
    let (used, c, n, b, v, l) = wide_minimal 1 24 offset arg d d' h y in
    let (e, m) = words_1 used n b in
    let big : ltb arg 24 ≡ false = ground arith in
    let fits : leb arg 0xff ≡ true = ground (arith, m, v) in
    record {
      used = used;
      consumed = c;
      canonical = rw (big, fits) (rw (← v) (rw e refl));
      small = omega (arith, m, v);
    }

wide_2-IsMinimal :
    (major offset arg : ℕ) (d d' : Decoder)
    → wide_argument 2 0x100 offset true d ≡ ok (arg, d')
    → All IsByte d.rest
    → IsMinimal major 25 arg d d'
unfolding write_head
wide_2-IsMinimal major offset arg d d' h y =
    let (used, c, n, b, v, l) = wide_minimal 2 0x100 offset arg d d' h y in
    let (e, m) = words_2 used n b in
    let big : ltb arg 24 ≡ false = ground arith in
    let big1 : leb arg 0xff ≡ false = ground arith in
    let fits : leb arg 0xffff ≡ true = ground (arith, m, v) in
    record {
      used = used;
      consumed = c;
      canonical = rw (big, big1, fits) (rw (← v) (rw e refl));
      small = omega (arith, m, v);
    }

wide_4-IsMinimal :
    (major offset arg : ℕ) (d d' : Decoder)
    → wide_argument 4 0x1_0000 offset true d ≡ ok (arg, d')
    → All IsByte d.rest
    → IsMinimal major 26 arg d d'
unfolding write_head
wide_4-IsMinimal major offset arg d d' h y =
    let (used, c, n, b, v, l) = wide_minimal 4 0x1_0000 offset arg d d' h y in
    let (e, m) = words_4 used n b in
    let big : ltb arg 24 ≡ false = ground arith in
    let big1 : leb arg 0xff ≡ false = ground arith in
    let big2 : leb arg 0xffff ≡ false = ground arith in
    let fits : leb arg 0xffff_ffff ≡ true = ground (arith, m, v) in
    record {
      used = used;
      consumed = c;
      canonical = rw (big, big1, big2, fits) (rw (← v) (rw e refl));
      small = omega (arith, m, v);
    }

wide_8-IsMinimal :
    (major offset arg : ℕ) (d d' : Decoder)
    → wide_argument 8 0x1_0000_0000 offset true d ≡ ok (arg, d')
    → All IsByte d.rest
    → IsMinimal major 27 arg d d'
unfolding write_head
wide_8-IsMinimal major offset arg d d' h y =
    let (used, c, n, b, v, l) = wide_minimal 8 0x1_0000_0000 offset arg d d' h y in
    let (e, m) = words_8 used n b in
    let big : ltb arg 24 ≡ false = ground arith in
    let big1 : leb arg 0xff ≡ false = ground arith in
    let big2 : leb arg 0xffff ≡ false = ground arith in
    let big3 : leb arg 0xffff_ffff ≡ false = ground arith in
    record {
      used = used;
      consumed = c;
      canonical = rw (big, big1, big2, big3) (rw (← v) (rw e refl));
      small = omega (arith, m, v);
    }

-- A strict reading of an argument in bytes consumes the bytes that `write_head` writes behind the
-- initial byte, and yields a number below 2^64: no other head of that number is accepted.
pub argument_impl-IsMinimal :
    (major info offset arg : ℕ) (d d' : Decoder)
    → argument_impl info offset true d ≡ ok (arg, d')
    → All IsByte d.rest
    → IsMinimal major info arg d d'
unfolding argument_impl write_head
argument_impl-IsMinimal major info offset arg d d' h y = elim (Bool-cases (ltb info 24)) [
  | inl e ↦
      let h0 : (info ≡ arg) × (d ≡ d') = ground (arith, e, h) in
      let little : ltb arg 24 ≡ true = ground (arith, e) in
      record {
        used = [];
        consumed = record {
          input = ap (λ (s : Decoder). s.rest) h0.1;
          moved = omega (arith, ap (λ (s : Decoder). s.at) h0.1);
          left = subst (λ (s : Decoder). All IsByte s.rest) h0.1 y;
        };
        canonical = rw little (rw h0.0 refl);
        small = ground (arith, little);
      }
  | inr e ↦ elim (Bool-cases (info == 24)) [
    | inl e1 ↦
        subst (λ (i : ℕ). IsMinimal major i arg d d') (ground arith)
          (wide_1-IsMinimal major offset arg d d' (rw (← h, e, e1) refl) y)
    | inr e1 ↦ elim (Bool-cases (info == 25)) [
      | inl e2 ↦
          subst (λ (i : ℕ). IsMinimal major i arg d d') (ground arith)
            (wide_2-IsMinimal major offset arg d d' (rw (← h, e, e1, e2) refl) y)
      | inr e2 ↦ elim (Bool-cases (info == 26)) [
        | inl e3 ↦
            subst (λ (i : ℕ). IsMinimal major i arg d d') (ground arith)
              (wide_4-IsMinimal major offset arg d d' (rw (← h, e, e1, e2, e3) refl) y)
        | inr e3 ↦ elim (Bool-cases (info == 27)) [
          | inl e4 ↦
              subst (λ (i : ℕ). IsMinimal major i arg d d') (ground arith)
                (wide_8-IsMinimal major offset arg d d' (rw (← h, e, e1, e2, e3, e4) refl) y)
          | inr e4 ↦ absurd (ground (arith, e, e1, e2, e3, e4, h))
        ]
      ]
    ]
  ]
]
