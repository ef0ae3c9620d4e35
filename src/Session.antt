-- ===== src/Session.antt =====
-- The reports on benchmark sessions, `matrix_report` and `session_report` of
-- integrations/host/benchmark_session.py. What stands in a matrix or session directory is given: the
-- documents and the ages of the log files.
pub mod Counted
pub mod Complete
pub mod Alive
pub mod Profile
pub mod Lifecycle
use replaybook.Prelude.{
  ℕ, String, Bool, true, false, not, ◌&&◌, ◌||◌, Option, none, some, List, [], ◌∷◌, map, length,
  filter, count_if, is_nil, nat_beq, if◌then◌else◌,
}
use replaybook.Prelude.Int.{ℤ, pos, to_nat}
use replaybook.Prelude.Eq.{◌==◌, string_eq, elem, unique}
use replaybook.Prelude.Text.{FilePath, ◌<>◌}
use replaybook.Prelude.Result.{
  Result, ok, err, value_error, type_error, key_error, ◌>>=◌, ◌>>◌, map_result,
}
use replaybook.Json.{Value, null, str, arr, obj, nil, Fields, end, field}
use replaybook.Json.Floats.{Floats}
use replaybook.Json.Access.{get, index, eq_str, truthy, or_else}
use replaybook.Matrix.Jobs.{Job, JobSpec, build_jobs}
use replaybook.Matrix.Results.{
  Reading, absent, unreadable, document, WorkerResult, completed_worker, path_text,
}
use replaybook.Matrix.Resume.{Benchmark, saved_model}
use replaybook.Matrix.Summary.{Totals, summarize_runs}

-- A matrix directory: benchmark.json as `read_object` reads it, the result file of each job, the
-- whole seconds since its log was written, where it has one, and summary.json.
pub record MatrixDir (F : Type 0) : Type 0 where
  pub path : FilePath
  pub benchmark : Result Benchmark
  pub saved : Job → Reading F
  pub log_age : Job → Option ℤ
  pub summary : Reading F

-- The lists that the loop of `matrix_report` fills.
pub record Seen (F : Type 0) : Type 0 where
  pub runs : List (Fields F)
  pub active : List (String × ℕ)
  pub invalid : List String

-- The dict of `matrix_report`. The state is null where there is none.
pub record MatrixReport (F : Type 0) : Type 0 where
  pub matrix : FilePath
  pub state : Value F
  pub started_at : Option String
  pub expected : Option ℕ
  pub completed : ℕ
  pub totals : Totals F
  pub failure_categories : List (String × ℕ)
  pub active : List (String × ℕ)
  pub invalid_results : List String
  pub infrastructure_errors : Value F

-- The target of a report: session.json where it exists, status.json, whether the process of
-- worker.json lives, the directory `matrix` below it where that has a benchmark.json, and the target
-- itself as the directory of a matrix.
pub record SessionDir (F : Type 0) : Type 0 where
  pub path : FilePath
  pub session : Reading F
  pub status : Reading F
  pub alive : Bool
  pub matrix : Option (MatrixDir F)
  pub own : MatrixDir F

pub record SessionReport (F : Type 0) : Type 0 where
  pub report : MatrixReport F
  pub managed : Bool
  pub profile : Value F
  pub worker_alive : Bool
  pub after : Value F
  pub detail : Value F
  pub cohort : Value F
  pub cohort_identity : Value F

abbrev pub or_key_error {ℓ} : {A : Type ℓ} → Option A → Result A
or_key_error none = err key_error
or_key_error (some a) = ok a

-- The jobs of a saved benchmark. A saved base port below 0 is read as 0.
unfoldable pub matrix_jobs : FilePath → Benchmark → Result (List Job)
matrix_jobs path b = do
  attempts ← or_key_error b.attempts
  base_port ← or_key_error b.base_port
  build_jobs (record {
    scenarios = map (λ item. item.0) b.scenarios;
    models = map saved_model b.models;
    attempts = attempts;
    base_port = to_nat base_port;
    matrix_dir = path;
    reasoning_efforts = map some b.reasoning_efforts;
  })

abbrev pub terminal_states : List String
terminal_states = "completed" ∷ "incomplete" ∷ "failed" ∷ "interrupted" ∷ []

module _ {F : Type 0} where
  -- `path.exists()`
  abbrev pub exists : Reading F → Bool
  exists absent = false
  exists _ = true

  unfoldable pub read_object : Reading F → Result (Fields F)
  read_object absent = err (value_error "could not read")
  read_object (unreadable text) = err (value_error ("could not read: " <> text))
  read_object (document (obj fields)) = ok fields
  read_object (document _) = err (value_error "expected a JSON object")

  abbrev pub add_run : Option (Fields F) → List (Fields F) → List (Fields F)
  add_run none runs = runs
  add_run (some run) runs = run ∷ runs

  -- One round of the loop, in front of the rounds behind it.
  unfoldable pub see_job : Job → Option (WorkerResult F) → Reading F → Option ℤ → Seen F → Seen F
  see_job job (some worker) saved age rest = record rest { runs = add_run worker.result rest.runs }
  see_job job none absent none rest = rest
  see_job job none absent (some age) rest = record rest {
    active = (job.run_id, to_nat age) ∷ rest.active;
  }
  see_job job none _ age rest = record rest { invalid = job.run_id ∷ rest.invalid }

  abbrev pub nothing_seen : Seen F
  nothing_seen = record { runs = []; active = []; invalid = [] }

  -- A category as a key of the Counter; one that is no text raises here.
  abbrev pub category_of : Value F → Result String
  category_of (str s) = ok s
  category_of _ = err type_error

  -- `v in TERMINAL_STATES`
  abbrev pub is_terminal : Value F → Result Bool
  is_terminal (str s) = ok (elem s terminal_states)
  is_terminal (arr vs) = err type_error
  is_terminal (obj fs) = err type_error
  is_terminal _ = ok false

  -- The summary that a report goes by: none while the matrix runs, or where it cannot be read.
  abbrev pub summary_of : Bool → Reading F → Option (Fields F)
  summary_of true summary = none
  summary_of false (document (obj fields)) = some fields
  summary_of false _ = none

module _ {F : Type 0} ⦃fl : Floats F⦄ where
  unfoldable pub see_jobs : MatrixDir F → Option String → List Job → Result (Seen F)
  unfolding see_job
  see_jobs m provider [] = ok nothing_seen
  see_jobs m provider (job ∷ jobs) = do
    worker ← completed_worker job provider (m.saved job)
    rest ← see_jobs m provider jobs
    ok (see_job job worker (m.saved job) (m.log_age job) rest)

  -- `dict(Counter(...))`: the categories that are truthy, in the order of their first occurrence.
  abbrev pub category_counts : List (Fields F) → Result (List (String × ℕ))
  category_counts runs =
      map_result (λ run. category_of (get "failure_category" run))
        (filter (λ run. truthy (get "failure_category" run)) runs)
      >>= λ names. ok (map (λ name. (name, count_if (λ other. other == name) names)) (unique names))

  -- `summary.get("infrastructure_errors") or []`
  abbrev pub errors_of : Fields F → Value F
  errors_of summary = or_else (get "infrastructure_errors" summary) (arr nil)

  -- The test `complete`.
  unfoldable pub is_complete : List Job → Seen F → Totals F → Value F → Bool
  is_complete jobs seen totals errors =
      nat_beq (length seen.runs) (length jobs)
      && nat_beq totals.unavailable 0
      && not (truthy errors)
      && is_nil seen.invalid

  -- The dict, for the summary that the report goes by.
  unfoldable pub report_of :
      MatrixDir F
      → Benchmark
      → List Job
      → Seen F
      → Totals F
      → List (String × ℕ)
      → Option (Fields F)
      → MatrixReport F
  unfolding is_complete
  report_of m b jobs seen totals categories none = record {
    matrix = m.path;
    state = str "in_progress";
    started_at = b.started_at;
    expected = some (length jobs);
    completed = length seen.runs;
    totals = totals;
    failure_categories = categories;
    active = seen.active;
    invalid_results = seen.invalid;
    infrastructure_errors = arr nil;
  }
  report_of m b jobs seen totals categories (some summary) = record {
    matrix = m.path;
    state =
        str
          (if is_complete jobs seen totals (errors_of summary) then "completed" else "incomplete");
    started_at = b.started_at;
    expected = some (length jobs);
    completed = length seen.runs;
    totals = totals;
    failure_categories = categories;
    active = [];
    invalid_results = seen.invalid;
    infrastructure_errors = errors_of summary;
  }

  unfoldable pub matrix_report : MatrixDir F → Bool → Result (MatrixReport F)
  unfolding matrix_jobs see_jobs report_of summarize_runs
  matrix_report m running = do
    b ← m.benchmark
    jobs ← matrix_jobs m.path b
    seen ← see_jobs m b.agent_provider jobs
    totals ← summarize_runs seen.runs
    categories ← category_counts seen.runs
    ok (report_of m b jobs seen totals categories (summary_of running m.summary))

  -- The report of a session whose matrix has no benchmark.json: what it does not name is empty here.
  abbrev pub no_report : FilePath → Result (MatrixReport F)
  no_report path = summarize_runs [] >>= λ totals. ok (record {
    matrix = path;
    state = null;
    started_at = none;
    expected = none;
    completed = 0;
    totals = totals;
    failure_categories = [];
    active = [];
    invalid_results = [];
    infrastructure_errors = arr nil;
  })

  abbrev pub reported : SessionDir F → Bool → Result (MatrixReport F)
  reported dir running = elim dir.matrix [
    | none ↦ no_report dir.path
    | some m ↦ matrix_report m running
  ]

  -- `read_object(...) if ... else {"state": "starting"}`
  abbrev pub status_of : Reading F → Result (Fields F)
  status_of absent = ok (field "state" (str "starting") end)
  status_of reading = read_object reading

  -- `report.get("state") in {"completed", "incomplete"}`
  abbrev pub is_ended : Value F → Bool
  is_ended state = eq_str state "completed" || eq_str state "incomplete"

  -- The report with the state that the session gives it.
  unfoldable pub session_state : Bool → Value F → MatrixReport F → Result (MatrixReport F)
  session_state alive state report =
      if alive && eq_str state "running"
      then ok (record report { state = str "running" })
      else is_terminal state >>= λ terminal. ok (
          if terminal
          then record report { state = state }
          else if alive
          then record report { state = state }
          else record report {
            state = if is_ended report.state then report.state else str "interrupted";
            active = [];
          })

  unfoldable pub managed_report : SessionDir F → Result (SessionReport F)
  unfolding session_state read_object
  managed_report dir = do
    spec ← read_object dir.session
    status ← status_of dir.status
    state ← index "state" status
    report ← reported dir (dir.alive && eq_str state "running")
    final ← session_state dir.alive state report
    profile ← index "profile" spec
    ok (record {
      report = final;
      managed = true;
      profile = profile;
      worker_alive = dir.alive;
      after = get "after" spec;
      detail = get "detail" status;
      cohort = get "cohort_name" spec;
      cohort_identity = get "cohort_identity" spec;
    })

  unfoldable pub session_report : SessionDir F → Result (SessionReport F)
  unfolding managed_report matrix_report
  session_report dir =
      if exists dir.session
      then managed_report dir
      else matrix_report dir.own false >>= λ report. ok (record {
        report = report;
        managed = false;
        profile = null;
        worker_alive = false;
        after = null;
        detail = null;
        cohort = null;
        cohort_identity = null;
      })
