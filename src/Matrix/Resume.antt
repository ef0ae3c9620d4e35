-- ===== src/Matrix/Resume.antt =====
-- Resuming a matrix: `verify_saved_result_versions` and `build_resume_plan` of
-- integrations/host/run_host_matrix.py. The disk is what the function reads: the parsed
-- benchmark.json, the result file of each job and the outcome of `load_execution_snapshot`.
pub mod Partition
use replaybook.Prelude.{
  ℕ, zero, suc, ◌+◌, ◌≡◌, String, Bool, true, false, not, ◌&&◌, ◌||◌, Option, none, some, List, [],
  ◌∷◌, ◌++◌, map, is_nil, if◌then◌else◌,
}
use replaybook.Prelude.Int.{ℤ, pos, to_nat, is_positive, int_beq, int_eq}
use replaybook.Prelude.Eq.{◌==◌, string_eq}
use replaybook.Prelude.Text.{FilePath, ◌<>◌}
use replaybook.Prelude.Result.{Result, ok, err, value_error, type_error, raise_if, ◌>>=◌, ◌>>◌}
use replaybook.Json.{Value, Fields}
use replaybook.Json.Floats.{Floats}
use replaybook.Json.Access.{get, as_int, eq_str}
use replaybook.Matrix.Jobs.{Job, JobSpec, build_jobs}
use replaybook.Matrix.Results.{Reading, WorkerResult, completed_worker, path_text}

-- The benchmark.json of a matrix, as `main` writes it.
pub record Benchmark : Type 0 where
  pub scenarios : List (String × ℤ)
  pub models : List String
  pub reasoning_efforts : List String
  pub attempts : Option ℤ
  pub base_port : Option ℤ
  pub started_at : Option String
  pub agent_timeout_seconds : Option ℤ
  pub agent_name : Option String
  pub agent_adapter : Option String
  pub agent_provider : Option String
  pub claux_release : Option String

pub record Disk (F S : Type 0) : Type 0 where
  pub matrix_dir : FilePath
  -- `matrix_dir.is_dir()` and the parsed benchmark.json, where that is a file.
  pub is_dir : Bool
  pub benchmark : Option Benchmark
  -- What stands at the result path of a job.
  pub saved : Job → Reading F
  pub snapshot : Result S
  pub now : String

pub record ResumePlan (F S : Type 0) : Type 0 where
  pub matrix_dir : FilePath
  pub benchmark : Benchmark
  pub snapshot : S
  pub all_jobs : List Job
  pub completed : List (WorkerResult F)
  pub pending : List Job
  pub unavailable_retries : List Job
  pub started_at : String
  pub agent_timeout_seconds : ℤ
  pub agent_name : Option String
  pub agent_provider : Option String
  pub claux_release : Option String

-- `value or default` on an optional number: 0 counts as absent.
abbrev pub int_or : Option ℤ → ℤ → ℤ
int_or none d = d
int_or (some z) d = if int_beq z (pos 0) then d else z

abbrev pub text_or : Option String → String → String
text_or none d = d
text_or (some s) d = if s == "" then d else s

-- `None if model == "oracle" else str(model)`
abbrev pub saved_model : String → Option String
saved_model model = if model == "oracle" then none else some model

-- `{item["id"]: item["version"] for item in scenarios}.get(scenario)`: the last entry counts.
unfoldable pub expected_version : String → List (String × ℤ) → Option ℤ
expected_version scenario [] = none
expected_version scenario ((id, version) ∷ items) = elim (expected_version scenario items) [
  | some v ↦ some v
  | none ↦ if id == scenario then some version else none
]

abbrev pub same_version : Option ℤ → Option ℤ → Bool
same_version (some a) (some b) = int_beq a b
same_version _ _ = false

-- The arguments of `build_jobs`. A saved base port below 0 is read as 0.
abbrev pub resume_spec : FilePath → Benchmark → JobSpec
resume_spec matrix_dir b = record {
  scenarios = map (λ item. item.0) b.scenarios;
  models = map saved_model b.models;
  attempts = int_or b.attempts (pos 0);
  base_port = to_nat (int_or b.base_port (pos 22600));
  matrix_dir = matrix_dir;
  reasoning_efforts = map some b.reasoning_efforts;
}

abbrev pub is_complete_plan : Benchmark → Bool
is_complete_plan b =
    not (is_nil b.scenarios) && not (is_nil b.models) && is_positive (int_or b.attempts (pos 0))

-- The three lists that the loop of `build_resume_plan` fills.
pub record Triage (F : Type 0) : Type 0 where
  pub completed : List (WorkerResult F)
  pub pending : List Job
  pub unavailable_retries : List Job

abbrev pub no_triage : {F : Type 0} → Triage F
no_triage = record { completed = []; pending = []; unavailable_retries = [] }

module _ {F : Type 0} where
  -- `worker.result.get("trial_status") == "unavailable"`
  abbrev pub is_unavailable : WorkerResult F → Bool
  is_unavailable w = elim w.result [
    | none ↦ false
    | some result ↦ eq_str (get "trial_status" result) "unavailable"
  ]

  -- One round of the loop.
  unfoldable pub sort_job : Bool → Job → Option (WorkerResult F) → Triage F → Triage F
  sort_job retry_unavailable job none t = record t { pending = t.pending ++ job ∷ [] }
  sort_job retry_unavailable job (some worker) t =
      if retry_unavailable && is_unavailable worker
      then record t {
        pending = t.pending ++ job ∷ [];
        unavailable_retries = t.unavailable_retries ++ job ∷ [];
      }
      else record t { completed = t.completed ++ worker ∷ [] }

  -- `int(worker.result["scenario_version"])`, which `load_result` has found to be an integer.
  abbrev pub saved_version : WorkerResult F → Option ℤ
  saved_version w = elim w.result [
    | none ↦ none
    | some result ↦ as_int (get "scenario_version" result)
  ]

  unfoldable pub verify_saved_result_versions :
      List (WorkerResult F) → List (String × ℤ) → Result (Unit {0})
  verify_saved_result_versions [] scenarios = ok tt
  verify_saved_result_versions (w ∷ ws) scenarios =
      raise_if (not (same_version (saved_version w) (expected_version w.job.scenario scenarios)))
        ("saved result has wrong scenario version: " <> w.job.run_id)
      >> verify_saved_result_versions ws scenarios

module _ {F : Type 0} ⦃fl : Floats F⦄ where
  unfoldable pub triage_loop :
      Option String → Bool → (Job → Reading F) → List Job → Triage F → Result (Triage F)
  unfolding sort_job
  triage_loop provider retry_unavailable saved [] t = ok t
  triage_loop provider retry_unavailable saved (job ∷ jobs) t =
      completed_worker job provider (saved job) >>= λ worker.
      triage_loop provider retry_unavailable saved jobs (sort_job retry_unavailable job worker t)

  module _ {S : Type 0} where
    unfoldable pub resume_from : Bool → Disk F S → Benchmark → Result (ResumePlan F S)
    resume_from retry_unavailable disk b = do
      raise_if (not (is_complete_plan b)) "saved benchmark does not contain a complete job plan"
      jobs ← build_jobs (resume_spec disk.matrix_dir b)
      t ← triage_loop b.agent_provider retry_unavailable disk.saved jobs no_triage
      snapshot ← disk.snapshot
      verify_saved_result_versions t.completed b.scenarios
      ok (record {
        matrix_dir = disk.matrix_dir;
        benchmark = b;
        snapshot = snapshot;
        all_jobs = jobs;
        completed = t.completed;
        pending = t.pending;
        unavailable_retries = t.unavailable_retries;
        started_at = text_or b.started_at disk.now;
        agent_timeout_seconds = int_or b.agent_timeout_seconds (pos 900);
        agent_name = elim b.agent_adapter [
          | none ↦ b.agent_name
          | some adapter ↦ if adapter == "builtin:claux" then none else b.agent_name
        ];
        agent_provider = b.agent_provider;
        claux_release = b.claux_release;
      })

    unfoldable pub build_resume_plan : Bool → Disk F S → Result (ResumePlan F S)
    unfolding resume_from
    build_resume_plan retry_unavailable disk =
        if disk.is_dir
        then elim disk.benchmark [
          | none ↦
              err (
                value_error
                  ("resume directory is not a host matrix: " <> path_text disk.matrix_dir))
          | some b ↦ resume_from retry_unavailable disk b
        ]
        else err
            (value_error ("resume directory is not a host matrix: " <> path_text disk.matrix_dir))
