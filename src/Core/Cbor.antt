-- ===== src/Core/Cbor.antt =====
-- crates/fidoh-core/src/cbor.rs: the values of CTAP2 CBOR. The children hold the encoder and the
-- decoder.
pub mod Encode
pub mod Decode
pub mod Heads
pub mod Scalars
pub mod Minimal
pub mod Canonical
pub mod Strict
pub mod Unique
use fidoh.Base.{ℕ, suc, ◌+◌, List, Bool}

-- An i128 of the source: `pos n` is n, and `negsuc n` is -1 - n.
pub data ℤ : Type 0 where
  pos negsuc : ℕ → ℤ

-- `CborValue`. A text is held as its UTF-8.
mutual
  pub data CborValue : Type 0 where
    int : ℤ → CborValue
    bytes text : List ℕ → CborValue
    array : Items → CborValue
    map : Entries → CborValue
    bool : Bool → CborValue
    null : CborValue

  pub data Items : Type 0 where
    nil : Items
    cons : CborValue → Items → Items

  pub data Entries : Type 0 where
    end : Entries
    entry : CborValue → CborValue → Entries → Entries

unfoldable pub count_items : Items → ℕ
count_items nil = 0
count_items (cons v items) = suc (count_items items)

unfoldable pub count_entries : Entries → ℕ
count_entries end = 0
count_entries (entry k v entries) = suc (count_entries entries)

-- `MAX_DEPTH`.
abbrev pub max_depth : ℕ
max_depth = 4
