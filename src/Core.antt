-- ===== src/Core.antt =====
-- crates/fidoh-core: the transport-independent model.
pub mod Status
pub mod Time
pub mod Errors
pub mod Selection
pub mod Cbor
pub mod Messages
pub mod Ceremony
pub mod Crypto
mod Examples
