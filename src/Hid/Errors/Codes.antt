-- ===== src/Hid/Errors/Codes.antt =====
-- The CTAPHID_ERROR codes of error.rs as a total reading of a byte.
use fidoh.Base.{ℕ, ◌≡◌, ◌↔◌, true, arith}
use fidoh.Hid.Errors.{from_u8, to_u8, is_channel_busy}

-- Every byte keeps its value through the typed code, and 0x06 alone asks for a retry.
pub error_code_total :
    (b : ℕ) → (to_u8 (from_u8 b) ≡ b) × ((is_channel_busy (from_u8 b) ≡ true) ↔ (b ≡ 0x06))
unfolding from_u8 to_u8 is_channel_busy
error_code_total b = ground arith
