-- ===== src/Op.antt =====
-- The operators of the sequential runtime: runtime/sam/op.
pub mod Pull
pub mod Loop
pub mod Head
pub mod Skip
pub mod Tail
pub mod Uniq
pub mod Distinct
pub mod Yield
pub mod Apply
pub mod Router
pub mod Examples
