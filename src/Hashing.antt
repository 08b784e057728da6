-- ===== src/Hashing.antt =====
-- The hash ring of utils/consistency.go.
pub mod Crc32
pub mod Search
pub mod Ring
mod Examples
