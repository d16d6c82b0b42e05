-- ===== src/Core/Status/Codes.antt =====
-- The two conversions of status.rs between a byte and its typed code.
use fidoh.Base.{ℕ, ◌≡◌, true, arith, ◌↔◌}
use fidoh.Core.Status.{from_u8, to_u8, is_success}

-- Every byte keeps its value through the typed code.
pub to_u8-from_u8 : (b : ℕ) → to_u8 (from_u8 b) ≡ b
unfolding from_u8 to_u8
to_u8-from_u8 b = ground arith

-- The status of a byte counts as a success exactly when the byte is 0.
pub is_success-from_u8 : (b : ℕ) → (is_success (from_u8 b) ≡ true) ↔ (b ≡ 0)
unfolding from_u8 is_success
is_success-from_u8 b = ground arith
