-- ===== src/Commits.antt =====
-- The package lake/commits: commit objects, snapshots and patches.
pub mod Types
pub mod Object
pub mod Writeable
pub mod Snapshot
pub mod Patch
pub mod Store
pub mod Examples
