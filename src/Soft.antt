-- ===== src/Soft.antt =====
-- crates/fidoh-transport-soft: the software authenticator.
pub mod ClientPin
