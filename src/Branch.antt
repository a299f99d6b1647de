-- ===== src/Branch.antt =====
-- The commits to a branch: lake/branch.go.
pub mod Run
pub mod Ancestor
pub mod Objects
pub mod Commit
pub mod Examples
