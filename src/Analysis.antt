-- ===== src/Analysis.antt =====
-- internal/analysis: which allocations of a function may live in an arena.
pub mod Ssa
pub mod Summary
pub mod Lifetime
pub mod Escape
