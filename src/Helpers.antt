-- ===== src/Helpers.antt =====
-- pkg/helpers: bytes and amounts.
pub mod Amounts
pub mod Bytes
