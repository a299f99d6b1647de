-- ===== src/Journal.antt =====
-- The package lake/journal: a log of transactions in numbered files, and key-value tables over it.
pub mod Queue
pub mod Store
pub mod Examples
