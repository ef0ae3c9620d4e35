-- ===== src/Manifest.antt =====
-- The data of integrations/host/benchmark_manifest.py.
pub mod Load
pub mod Valid
pub mod Environment
pub mod Pack
pub mod Discover
use replaybook.Prelude.{String, Option, List}
use replaybook.Prelude.Int.{ℤ}
use replaybook.Prelude.Text.{FilePath}

pub record BenchmarkScenario : Type 0 where
  pub id : String
  pub version : ℤ

pub record BenchmarkManifest : Type 0 where
  pub path : FilePath
  pub id : String
  pub version : String
  pub status : Option String
  pub tier : Option String
  pub pack_path : FilePath
  pub pack_id : String
  pub pack_version : Option String
  pub scenarios : List BenchmarkScenario
  pub attempts : ℤ
  pub agent_timeout_seconds : ℤ
  pub required_host_harness_version : ℤ
  pub sha256 : String
