-- ===== src/Xchange.antt =====
-- The MVR-xchange protocol of native/src/mvrxchange.
pub mod Packet
pub mod Uuid
pub mod Service
mod Tests
