-- ===== src/Pcsc.antt =====
-- crates/fidoh-transport-pcsc: CTAP over ISO 7816-4 APDUs.
pub mod Sw
pub mod Apdu
pub mod Framing
pub mod Select
mod Examples
