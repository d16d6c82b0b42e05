-- ===== src/Core/Cbor/Heads.antt =====
-- The heads that `write_head` of cbor.rs writes, and how `argument_impl` reads them.
use fidoh.Base.{
  ℕ, ◌+◌, ◌*◌, ◌/◌, ◌%◌, ◌^◌, ◌<◌, ◌≤◌, ◌≡◌, refl, arith, List, [], ◌∷◌, ◌++◌, length,
  from_be_bytes, to_be_bytes, bit_and, bit_or, bit_or-fields, bit_and-low_five, Bool, ok, ltb, leb,
  Bool-cases, inl, inr, length-append, take-append_front, drop-append_front,
}
use fidoh.Core.Cbor.Encode.{write_head}
use fidoh.Core.Cbor.Decode.{take_bytes, wide_argument, argument_impl}

-- The initial byte in its two fields.
initial_fields :
    (major info : ℕ)
    → major < 8
    → info < 32
    → (bit_or (major * 32 % 256) info / 32 ≡ major)
      × (bit_and (bit_or (major * 32 % 256) info) 0x1f ≡ info)
initial_fields major info h k =
    let e : major * 32 % 256 ≡ major * 32 = omega arith in
    rw e (ground (arith, bit_or-fields major info h k, bit_and-low_five (major * 32 + info)))

-- How a head is read back: its major type from the first byte, and the argument under either
-- posture, with what is behind it left.
abbrev pub HeadReads : ℕ → ℕ → List ℕ → Type 0
HeadReads major arg [] = ⊥
HeadReads major arg (b ∷ behind) =
    (b / 32 ≡ major)
    × ((offset at : ℕ) (checked : Bool) (rest : List ℕ)
        → argument_impl (bit_and b 0x1f) offset checked (record { at = at; rest = behind ++ rest })
          ≡ ok (arg, record { at = at + length behind; rest = rest }))

head_in_fields :
    (major info arg : ℕ) (behind : List ℕ)
    → major < 8
    → info < 32
    → ((offset at : ℕ) (checked : Bool) (rest : List ℕ)
        → argument_impl info offset checked (record { at = at; rest = behind ++ rest })
          ≡ ok (arg, record { at = at + length behind; rest = rest }))
    → HeadReads major arg (bit_or (major * 32 % 256) info ∷ behind)
head_in_fields major info arg behind h k reads =
    let (e, f) = initial_fields major info h k in
    (e, λ offset at checked rest. rw f (reads offset at checked rest))

-- The big-endian bytes of a number, read again, for the widths of the heads.
be_bytes_1 : (x : ℕ) → x < 2 ^ 8 → from_be_bytes (to_be_bytes 1 x) ≡ x
be_bytes_1 x h = omega arith

be_bytes_2 : (x : ℕ) → x < 2 ^ 16 → from_be_bytes (to_be_bytes 2 x) ≡ x
be_bytes_2 x h = omega arith

be_bytes_4 : (x : ℕ) → x < 2 ^ 32 → from_be_bytes (to_be_bytes 4 x) ≡ x
be_bytes_4 x h = omega arith

be_bytes_8 : (x : ℕ) → x < 2 ^ 64 → from_be_bytes (to_be_bytes 8 x) ≡ x
be_bytes_8 x h = omega arith

wide_reads :
    (n least arg offset at : ℕ) (checked : Bool) (behind rest : List ℕ)
    → length behind ≡ n
    → from_be_bytes behind ≡ arg
    → least ≤ arg
    → wide_argument n least offset checked (record { at = at; rest = behind ++ rest })
      ≡ ok (arg, record { at = at + length behind; rest = rest })
unfolding wide_argument take_bytes
wide_reads n least arg offset at checked behind rest size read big = ground (
  arith,
  length-append behind rest,
  take-append_front behind rest n,
  drop-append_front behind rest n,
)

-- The head of an argument below 2^64 is read back with its major type, under both postures.
pub write_head-HeadReads :
    (major arg : ℕ) → major < 8 → arg < 2 ^ 64 → HeadReads major arg (write_head major arg)
unfolding write_head argument_impl
write_head-HeadReads major arg h k = elim (Bool-cases (ltb arg 24)) [
  | inl e ↦ rw e (
      head_in_fields major arg arg [] h (ground arith)
        λ offset at checked rest. rw e (ground arith))
  | inr e ↦ elim (Bool-cases (leb arg 0xff)) [
    | inl e1 ↦
        rw (e, e1)
          (head_in_fields major 24 arg (to_be_bytes 1 arg) h (omega arith) λ offset at checked rest.
            wide_reads 1 24 arg offset at checked (to_be_bytes 1 arg) rest refl
              (be_bytes_1 arg (ground arith)) (ground arith))
    | inr e1 ↦ elim (Bool-cases (leb arg 0xffff)) [
      | inl e2 ↦
          rw (e, e1, e2)
            (head_in_fields major 25 arg (to_be_bytes 2 arg) h (omega arith)
              λ offset at checked rest.
                wide_reads 2 0x100 arg offset at checked (to_be_bytes 2 arg) rest refl
                  (be_bytes_2 arg (ground arith)) (ground arith))
      | inr e2 ↦ elim (Bool-cases (leb arg 0xffff_ffff)) [
        | inl e3 ↦
            rw (e, e1, e2, e3)
              (head_in_fields major 26 arg (to_be_bytes 4 arg) h (omega arith)
                λ offset at checked rest.
                  wide_reads 4 0x1_0000 arg offset at checked (to_be_bytes 4 arg) rest refl
                    (be_bytes_4 arg (ground arith)) (ground arith))
        | inr e3 ↦
            rw (e, e1, e2, e3)
              (head_in_fields major 27 arg (to_be_bytes 8 arg) h (omega arith)
                λ offset at checked rest.
                  wide_reads 8 0x1_0000_0000 arg offset at checked (to_be_bytes 8 arg) rest refl
                    (be_bytes_8 arg k) (ground arith))
      ]
    ]
  ]
]
