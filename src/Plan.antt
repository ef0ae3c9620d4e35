-- ===== src/Plan.antt =====
-- integrations/host/benchmark_plan.py: which trials a benchmark still needs, and the matrices that
-- run them.
pub mod Lanes
pub mod Commands
pub mod Sources
pub mod Estimate
pub mod Whole
pub mod Gaps
pub mod Evidence
