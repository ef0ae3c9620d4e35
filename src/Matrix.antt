-- ===== src/Matrix.antt =====
-- integrations/host/run_host_matrix.py, split by what its functions work on.
pub mod Slug
pub mod Jobs
pub mod Results
pub mod Workers
pub mod Command
pub mod Args
pub mod Setup
pub mod Resume
pub mod Retry
pub mod Summary
pub mod Report
