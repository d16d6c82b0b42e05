-- ===== src/Pcsc/Apdu/Parsing.antt =====
-- How a card takes a case 4 APDU apart, and that it finds what apdu.rs put in.
use fidoh.Base.{
  ℕ, ◌+◌, ◌*◌, ◌%◌, ◌≤◌, ◌<◌, ◌≡◌, arith, true, false, if◌then◌else◌, List, [], ◌∷◌, ◌++◌, length,
  take, drop, from_be_bytes, ◌==◌, Option, none, some, length-append, take-append_front,
  drop-append_front,
}
use fidoh.Pcsc.Apdu.{case4, short_le, u16_be}

pub record Command : Type 0 where
  pub cla : ℕ
  pub ins : ℕ
  pub p1 : ℕ
  pub p2 : ℕ
  pub body : List ℕ
  -- the most response bytes that the card may send
  pub expected : ℕ

-- ISO 7816-4: an Le of zero asks for the most that the field can say.
abbrev le_value : ℕ → List ℕ → ℕ
le_value most field = if from_be_bytes field == 0 then most else from_be_bytes field

-- `n` bytes of data and a field of `w` bytes, with nothing behind them.
read_body : ℕ → ℕ → ℕ → ℕ → ℕ → ℕ → ℕ → List ℕ → Option Command
read_body cla ins p1 p2 n w most rest =
    if length rest == n + w
    then some (record {
      cla = cla;
      ins = ins;
      p1 = p1;
      p2 = p2;
      body = take n rest;
      expected = le_value most (drop n rest);
    })
    else none

-- A length byte of zero announces the extended form.
pub read_case4 : List ℕ → Option Command
read_case4 (cla ∷ ins ∷ p1 ∷ p2 ∷ l ∷ []) = none
read_case4 (cla ∷ ins ∷ p1 ∷ p2 ∷ l ∷ h ∷ []) = read_body cla ins p1 p2 l 1 256 (h ∷ [])
read_case4 (cla ∷ ins ∷ p1 ∷ p2 ∷ l ∷ h ∷ k ∷ rest) =
    if l == 0
    then read_body cla ins p1 p2 (h * 256 + k) 2 65536 rest
    else read_body cla ins p1 p2 l 1 256 (h ∷ k ∷ rest)
read_case4 _ = none

read_body-append :
    (cla ins p1 p2 n w most : ℕ) (body field : List ℕ)
    → n ≡ length body
    → w ≡ length field
    → read_body cla ins p1 p2 n w most (body ++ field)
      ≡ some (record {
        cla = cla;
        ins = ins;
        p1 = p1;
        p2 = p2;
        body = body;
        expected = le_value most field;
      })
unfolding read_body
read_body-append cla ins p1 p2 n w most body field hn hw = ground (
  arith,
  length-append body field,
  take-append_front body field n,
  drop-append_front body field n,
)

short_le_value : (le : ℕ) → 0 < le → le ≤ 256 → le_value 256 (short_le le ∷ []) ≡ le
unfolding short_le
short_le_value le h k = ground arith

extended_le_value : (le : ℕ) → 0 < le → le < 65536 → le_value 65536 (u16_be le) ≡ le
extended_le_value le h k = ground arith

-- A short case 4 APDU with 1 to 255 bytes of data and up to 256 expected bytes is read back whole.
pub read_case4-short :
    (cla ins p1 p2 le : ℕ) (body : List ℕ)
    → 0 < length body
    → length body ≤ 255
    → 0 < le
    → le ≤ 256
    → read_case4 (case4 cla ins p1 p2 body le false)
      ≡ some (record { cla = cla; ins = ins; p1 = p1; p2 = p2; body = body; expected = le })
unfolding read_case4 case4
read_case4-short cla ins p1 p2 le [] h k hl kl = absurd (omega arith)
read_case4-short cla ins p1 p2 le (b ∷ []) h k hl kl =
    ground
      (arith, short_le_value le, read_body-append cla ins p1 p2 1 1 256 (b ∷ []) (short_le le ∷ []))
read_case4-short cla ins p1 p2 le (b ∷ c ∷ bs) h k hl kl =
    let n : ℕ = length (b ∷ c ∷ bs) in
    ground (
      arith,
      short_le_value le,
      read_body-append cla ins p1 p2 (n % 256) 1 256 (b ∷ c ∷ bs) (short_le le ∷ []),
    )

-- An extended one with up to 65535 bytes of data and up to 65535 expected bytes is too.
pub read_case4-extended :
    (cla ins p1 p2 le : ℕ) (body : List ℕ)
    → length body < 65536
    → 0 < le
    → le < 65536
    → read_case4 (case4 cla ins p1 p2 body le true)
      ≡ some (record { cla = cla; ins = ins; p1 = p1; p2 = p2; body = body; expected = le })
unfolding read_case4 case4
read_case4-extended cla ins p1 p2 le body h hl kl = ground (
  arith,
  extended_le_value le,
  read_body-append cla ins p1 p2 (from_be_bytes (u16_be (length body))) 2 65536 body (u16_be le),
)
