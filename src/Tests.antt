-- ===== src/Tests.antt =====
-- The theorems at concrete inputs.
pub mod Data
mod Jobs
mod Results
mod Workers
mod Resume
mod Retry
mod Report
mod Args
mod Plan
mod Manifest
mod Phase
mod Session
mod Scores
