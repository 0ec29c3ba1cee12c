-- ===== src/Analysis/Lifetime.antt =====
-- internal/analysis/lifetime: how values flow from an allocation, and whether they escape the function.
pub mod Types
pub mod Ownership
pub mod Graph
pub mod Regions
pub mod Flows
pub mod Search
pub mod Report
