-- ===== src/Arena.antt =====
-- `Arena` of arena.go and `Savepoint` of checkpoint.go, part by part.
pub mod State
pub mod Alloc
pub mod Marks
pub mod Offsets
pub mod Invariant
pub mod Grants
pub mod Growth
pub mod Calls
pub mod Live
pub mod Savepoints
pub mod Since
pub mod Rewind
pub mod Rollback
pub mod Lifecycle
pub mod Fresh
pub mod Room
