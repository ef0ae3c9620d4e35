-- ===== src/Tests/Resume.antt =====
-- A matrix of two jobs of which the first has a saved result.
use replaybook.Prelude.{ℕ, String, Bool, true, Option, none, some, List, [], ◌∷◌, if◌then◌else◌}
use replaybook.Prelude.Int.{pos}
use replaybook.Prelude.Eq.{◌==◌, string_eq}
use replaybook.Prelude.Result.{ok}
use replaybook.Matrix.Jobs.{Job}
use replaybook.Matrix.Results.{Reading, absent}
use replaybook.Matrix.Resume.{Disk, ResumePlan}
use replaybook.Tests.Data.{nat_floats, saved_benchmark, job_b, two_jobs, reading_a, worker_a}

abbrev saved_disk : Disk ℕ String
saved_disk = record {
  matrix_dir = "m" ∷ [];
  is_dir = true;
  benchmark = some saved_benchmark;
  saved = λ job. if job.run_id == "013-a-1" then reading_a else absent;
  snapshot = ok "snapshot";
  now = "now";
}

abbrev resumed : ResumePlan ℕ String
resumed = record {
  matrix_dir = "m" ∷ [];
  benchmark = saved_benchmark;
  snapshot = "snapshot";
  all_jobs = two_jobs;
  completed = worker_a ∷ [];
  pending = job_b ∷ [];
  unavailable_retries = [];
  started_at = "then";
  agent_timeout_seconds = pos 60;
  agent_name = none;
  agent_provider = some "p";
  claux_release = none;
}
