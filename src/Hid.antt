-- ===== src/Hid.antt =====
-- crates/fidoh-transport-hid: CTAPHID framing over 64-byte reports.
pub mod Errors
pub mod Packet
pub mod Assembler
pub mod Io
pub mod Fsm
pub mod Descriptor
mod Examples
