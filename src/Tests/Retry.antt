-- ===== src/Tests/Retry.antt =====
-- A matrix of a recovered trial and of an unavailable one that is run again.
use replaybook.Prelude.{ℕ, String, Bool, true, none, some, [], ◌∷◌, if◌then◌else◌, map}
use replaybook.Prelude.Int.{pos}
use replaybook.Prelude.Eq.{◌==◌, string_eq, list_eq}
use replaybook.Prelude.Text.{FilePath}
use replaybook.Prelude.Result.{ok}
use replaybook.Json.{obj}
use replaybook.Matrix.Jobs.{Job}
use replaybook.Matrix.Results.{document}
use replaybook.Matrix.Resume.{Disk, ResumePlan}
use replaybook.Matrix.Retry.{Files}
use replaybook.Tests.Data.{
  nat_floats, saved_benchmark, job_b, two_jobs, reading_a, worker_a, result_of,
}

abbrev retry_disk : Disk ℕ String
retry_disk = record {
  matrix_dir = "m" ∷ [];
  is_dir = true;
  benchmark = some saved_benchmark;
  saved = λ job.
      if job.run_id == "013-a-1" then reading_a else document (obj (result_of "b" 0 "unavailable"));
  snapshot = ok "snapshot";
  now = "now";
}

abbrev retry_plan : ResumePlan ℕ String
retry_plan = record {
  matrix_dir = "m" ∷ [];
  benchmark = saved_benchmark;
  snapshot = "snapshot";
  all_jobs = two_jobs;
  completed = worker_a ∷ [];
  pending = job_b ∷ [];
  unavailable_retries = job_b ∷ [];
  started_at = "then";
  agent_timeout_seconds = pos 60;
  agent_name = none;
  agent_provider = some "p";
  claux_release = none;
}

abbrev run_a : FilePath
run_a = "m" ∷ "runs" ∷ "013-a-1" ∷ []

abbrev run_b : FilePath
run_b = "m" ∷ "runs" ∷ "013-b-1" ∷ []

abbrev kept_b : FilePath
kept_b = "m" ∷ "retries" ∷ "noon-013-b-1" ∷ "run" ∷ []

abbrev saved_files : Files String
saved_files = record {
  entries =
      λ p. if p == run_a then some "run of a" else if p == run_b then some "run of b" else none;
  archives = [];
}

abbrev noon : Job → String
noon job = "noon"

abbrev prepared : Files String
prepared = record {
  entries = λ p.
      if p == run_b
      then none
      else if p == kept_b
      then some "run of b"
      else if p == run_b
      then none
      else if p == run_a
      then some "run of a"
      else if p == run_b
      then some "run of b"
      else none;
  archives = "noon-013-b-1" ∷ [];
}
