-- ===== src/Tests.antt =====
-- Runs of the theorems and of the code on concrete data.
pub mod Data
pub mod Arenas
pub mod Caches
pub mod Pools
pub mod Scopes
pub mod Parts
pub mod Codecs
pub mod Texts
pub mod Stores
pub mod Races
pub mod Analyses
