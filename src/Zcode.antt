-- ===== src/Zcode.antt =====
-- The package zcode.
pub mod Counted
pub mod Uvarint
pub mod Bytes
pub mod Builder
pub mod Examples
