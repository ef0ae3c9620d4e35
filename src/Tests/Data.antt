-- ===== src/Tests/Data.antt =====
-- The inputs of the tests: whole numbers in place of floats, a spec of two jobs and their results.
use replaybook.Prelude.{
  ℕ, ◌+◌, ◌-◌, ◌*◌, ◌/◌, String, none, some, List, [], ◌∷◌, length, ltb, nat_beq, sum, Bool, false,
}
use replaybook.Prelude.Int.{pos, int_beq, to_nat}
use replaybook.Prelude.Text.{FilePath, ◌<>◌}
use replaybook.Prelude.Result.{ok}
use replaybook.Json.{int, str, obj, Fields, end, field}
use replaybook.Json.Floats.{Floats}
use replaybook.Manifest.{BenchmarkManifest}
use replaybook.Matrix.Jobs.{Job, JobSpec}
use replaybook.Matrix.Resume.{Benchmark}
use replaybook.Matrix.Results.{Reading, absent, document, WorkerResult}
use replaybook.Matrix.Workers.{Pool, Event, start, exit, waiting, running, finished}

instance abbrev pub nat_floats : Floats ℕ
nat_floats = record {
  of_int = to_nat;
  add = λ x y. x + y;
  sub = λ x y. x - y;
  mul = λ x y. x * y;
  div = λ x y. x / y;
  sum = sum;
  mean = λ xs. sum xs / length xs;
  round = λ x n. x;
  lt = ltb;
  eq = nat_beq;
  eq_int = λ x z. int_beq (pos x) z;
  truncate = λ x. ok (pos x);
  ceil = λ x. ok (pos x);
  of_text = λ s. none;
  int_of_text = λ s. none;
}

abbrev pub two_models : JobSpec
two_models = record {
  scenarios = "013" ∷ [];
  models = some "a" ∷ some "b" ∷ [];
  attempts = pos 1;
  base_port = 22600;
  matrix_dir = "m" ∷ [];
  reasoning_efforts = [];
}

abbrev pub job_of : String → String → ℕ → Job
job_of model run_id port = record {
  run_id = run_id;
  scenario = "013";
  model = some model;
  attempt = 1;
  ssh_port = port;
  http_port = port + 1;
  output_dir = "m" ∷ "runs" ∷ run_id ∷ [];
  log_file = "m" ∷ "logs" ∷ (run_id <> ".log") ∷ [];
  reasoning_effort = none;
}

abbrev pub job_a : Job
job_a = job_of "a" "013-a-1" 22600

abbrev pub job_b : Job
job_b = job_of "b" "013-b-1" 22602

abbrev pub result_of : String → ℕ → String → Fields ℕ
result_of model reward status = field "harness_version" (int (pos 23)) (
    field "scenario" (str "013") (
      field "scenario_version" (int (pos 2)) (
        field "model" (str model) (
          field "reward" (int (pos reward))
            (field "trial_status" (str status) (field "provider" (str "p") end))))))

abbrev pub result_a : Fields ℕ
result_a = result_of "a" 1 "evaluated"

abbrev pub reading_a : Reading ℕ
reading_a = document (obj result_a)

abbrev pub worker_a : WorkerResult ℕ
worker_a = record { job = job_a; exit_code = pos 0; result = some result_a; error = none }

abbrev pub worker_b : WorkerResult ℕ
worker_b = record {
  job = job_b;
  exit_code = pos 137;
  result = none;
  error = some "result was not written: m/runs/013-b-1/result.json";
}

-- Both workers start, the second ends first and leaves no result.
abbrev pub two_jobs : List Job
two_jobs = job_a ∷ job_b ∷ []

abbrev pub two_events : List (Event ℕ)
two_events = start 0 ∷ start 1 ∷ exit 1 (pos 137) absent ∷ exit 0 (pos 0) reading_a ∷ []

abbrev pub two_done : Pool ℕ
two_done = record {
  tasks =
      record { job = job_a; phase = finished worker_a }
      ∷ record { job = job_b; phase = finished worker_b }
      ∷ [];
  permits = 2;
  progress = record { started = 2; completed = 2 };
}

-- The first has started, the second waits for its permit.
abbrev pub one_running : Pool ℕ
one_running = record {
  tasks = record { job = job_a; phase = running } ∷ record { job = job_b; phase = waiting } ∷ [];
  permits = 0;
  progress = record { started = 1; completed = 0 };
}

abbrev pub benchmark_json : Fields ℕ
benchmark_json = field "agent" (obj (field "provider" (str "p") end)) end

abbrev pub no_file : FilePath → Bool
no_file path = false

abbrev pub manifest_013 : BenchmarkManifest
manifest_013 = record {
  path = "benchmark.toml" ∷ [];
  id = "core";
  version = "1";
  status = none;
  tier = none;
  pack_path = "scenarios" ∷ [];
  pack_id = "bundled";
  pack_version = none;
  scenarios = record { id = "013"; version = pos 2 } ∷ [];
  attempts = pos 3;
  agent_timeout_seconds = pos 60;
  required_host_harness_version = pos 23;
  sha256 = "0";
}

abbrev pub saved_benchmark : Benchmark
saved_benchmark = record {
  scenarios = ("013", pos 2) ∷ [];
  models = "a" ∷ "b" ∷ [];
  reasoning_efforts = [];
  attempts = some (pos 1);
  base_port = some (pos 22600);
  started_at = some "then";
  agent_timeout_seconds = some (pos 60);
  agent_name = some "claux";
  agent_adapter = some "builtin:claux";
  agent_provider = some "p";
  claux_release = none;
}
