-- ===== src/Matrix/Report.antt =====
-- The summary of a matrix: `build_summary` and `summary_exit_status` of
-- integrations/host/run_host_matrix.py. The disk is the test for transcripts, the clock the time
-- at the end.
pub mod Parts
pub mod Complete
pub mod Groups
use replaybook.Prelude.{
  ℕ, zero, suc, String, Bool, true, false, not, ◌&&◌, Option, none, some, List, [], ◌∷◌, ◌++◌, map,
  is_nil, filter, length, count_if, nat_beq, if◌then◌else◌,
}
use replaybook.Prelude.Int.{ℤ, pos, negsuc, int_eq, int_beq, int_ltb}
use replaybook.Prelude.Eq.{◌==◌, string_eq, option_eq, pair_eq, unique}
use replaybook.Prelude.Text.{FilePath, ◌<>◌, int_text}
use replaybook.Prelude.Order.{string_leb, sort}
use replaybook.Prelude.Groups.{group_into}
use replaybook.Prelude.Dict.{Dict}
use replaybook.Prelude.Result.{Result, ok, err, type_error, ◌>>=◌, map_result}
use replaybook.Json.{Value, null, bool, int, float, str, arr, obj, Fields, end, field}
use replaybook.Json.Floats.{Floats}
use replaybook.Json.Access.{get, get_or, index, has_key, put, dict_of, eq_str, truthy, or_else}
use replaybook.Json.Numbers.{to_int}
use replaybook.Matrix.Jobs.{Job}
use replaybook.Matrix.Results.{WorkerResult, path_text}
use replaybook.Matrix.Summary.{Totals, is_evaluated, summarize_runs}

pub record InfrastructureError : Type 0 where
  pub run_id : String
  pub exit_code : ℤ
  pub error : Option String
  pub log_file : String

-- `(provider, model, reasoning_effort)`
abbrev pub ModelKey : Type 0
ModelKey = Option String × (String × Option String)

-- `(scenario, version, provider, model, reasoning_effort)`
abbrev pub ScenarioKey : Type 0
ScenarioKey = String × (ℤ × ModelKey)

pub record Summary (F : Type 0) : Type 0 where
  pub schema_version : ℕ
  pub suite : String
  pub harness_version : ℤ
  pub harness_versions : List ℤ
  pub started_at : String
  pub finished_at : String
  pub benchmark : Fields F
  pub expected_trials : ℕ
  pub received_results : ℕ
  pub totals : Totals F
  pub infrastructure_errors : List InfrastructureError
  pub failure_categories : List (String × ℕ)
  pub unavailable_categories : List (String × ℕ)
  pub by_model : List (ModelKey × Totals F)
  pub by_scenario_model : List (ScenarioKey × Totals F)
  pub runs : List (Fields F)

abbrev pub host_harness_version : ℤ
host_harness_version = pos 23

abbrev pub or_empty : Option String → String
or_empty none = ""
or_empty (some s) = s

-- The comparison of tuples: by the first component that differs.
abbrev pub then_by : String → String → Bool → Bool
then_by a b rest = if a == b then rest else string_leb a b

abbrev pub model_key_leb : ModelKey → ModelKey → Bool
model_key_leb (p, (m, e)) (q, (n, f)) =
    then_by (or_empty p) (or_empty q) (then_by m n (string_leb (or_empty e) (or_empty f)))

abbrev pub scenario_key_leb : ScenarioKey → ScenarioKey → Bool
scenario_key_leb (s, (v, k)) (t, (w, l)) =
    then_by s t (if int_beq v w then model_key_leb k l else int_ltb v w)

-- `max(versions, default=HOST_HARNESS_VERSION)`
abbrev pub max_version : ℤ → List ℤ → ℤ
max_version z [] = z
max_version z (v ∷ vs) = max_version (if int_ltb z v then v else z) vs

abbrev pub newest : List ℤ → ℤ
newest [] = host_harness_version
newest (v ∷ vs) = max_version v vs

-- `sorted(Counter(xs).items())`
abbrev pub counted : List String → List (String × ℕ)
counted xs = map (λ x. (x, count_if (λ y. y == x) xs)) (sort string_leb (unique xs))

abbrev pub transcript_path : Job → FilePath
transcript_path job = job.output_dir ++ "results" ∷ "transcript.json" ∷ []

-- A run with its keys.
abbrev pub Keyed : Type 0 → Type 0
Keyed F = (ModelKey × ScenarioKey) × Fields F

module _ {F : Type 0} where
  -- `str(v)` of a text, `None`, a Boolean or an integer. The print of floats, lists and dicts is not
  -- modelled: they raise here.
  abbrev pub text_of : Value F → Result String
  text_of (str s) = ok s
  text_of null = ok "None"
  text_of (bool true) = ok "True"
  text_of (bool false) = ok "False"
  text_of (int z) = ok (int_text z)
  text_of _ = err type_error

  -- A part of a key that is a text or `None`; a list or a dict raises, and so do numbers here, which
  -- have no order with texts.
  abbrev pub key_text : Value F → Result (Option String)
  key_text (str s) = ok (some s)
  key_text null = ok none
  key_text _ = err type_error

  abbrev pub infrastructure_error : WorkerResult F → InfrastructureError
  infrastructure_error w = record {
    run_id = w.job.run_id;
    exit_code = w.exit_code;
    error = w.error;
    log_file = path_text w.job.log_file;
  }

  -- `run = dict(worker.result)` and `run.update(...)`.
  unfoldable pub updated_run : (FilePath → Bool) → WorkerResult F → Fields F → Fields F
  updated_run is_file w result =
      put "transcript_file"
        (if is_file (transcript_path w.job) then str (path_text (transcript_path w.job)) else null)
        (put "log_file" (str (path_text w.job.log_file)) (
          put "result_file" (str (path_text (w.job.output_dir ++ "result.json" ∷ []))) (
            put "worker_exit_code" (int w.exit_code)
              (put "attempt" (int (pos w.job.attempt)) (put "run_id" (str w.job.run_id) result)))))

  abbrev pub set_default : String → Value F → Fields F → Fields F
  set_default key v run = if has_key key run then run else put key v run

module _ {F : Type 0} ⦃fl : Floats F⦄ where
  -- `(benchmark.get("agent") or {}).get("provider")`
  abbrev pub benchmark_provider : Fields F → Result (Value F)
  benchmark_provider benchmark =
      dict_of (or_else (get "agent" benchmark) (obj end)) >>= λ agent. ok (get "provider" agent)

  -- One round of the first loop, for a worker with a result.
  abbrev pub prepared_run :
      (FilePath → Bool) → Fields F → WorkerResult F → Fields F → Result (Fields F)
  prepared_run is_file benchmark w result = benchmark_provider benchmark >>= λ provider.
      ok (set_default "provider" provider (updated_run is_file w result))

  -- The first loop: `infrastructure_errors` and `runs`.
  unfoldable pub collect_runs :
      (FilePath → Bool)
      → Fields F
      → List (WorkerResult F)
      → Result (List InfrastructureError × List (Fields F))
  unfolding updated_run
  collect_runs is_file benchmark [] = ok ([], [])
  collect_runs is_file benchmark (w ∷ ws) = elim w.result [
    | none ↦
        collect_runs is_file benchmark ws >>= λ rest. ok (infrastructure_error w ∷ rest.0, rest.1)
    | some result ↦ prepared_run is_file benchmark w result >>= λ run.
        collect_runs is_file benchmark ws >>= λ rest. ok (rest.0, run ∷ rest.1)
  ]

  -- The keys of the two groupings.
  abbrev pub keys_of : Fields F → Result (ModelKey × ScenarioKey)
  keys_of run = do
    model ← text_of (get_or "model" (str "unknown") run)
    scenario ← text_of (get_or "scenario" (str "unknown") run)
    version ← to_int (get_or "scenario_version" (int (pos 0)) run)
    reasoning_effort ← key_text (get "reasoning_effort" run)
    provider ← key_text (get "provider" run)
    ok (
      (provider, (model, reasoning_effort)),
      (scenario, (version, (provider, (model, reasoning_effort)))),
    )

  abbrev pub keyed_run : Fields F → Result (Keyed F)
  keyed_run run = keys_of run >>= λ keys. ok (keys, run)

  -- The summary of a group.
  abbrev pub group_row {ℓ} : {K : Type ℓ} → K × List (Keyed F) → Result (K × Totals F)
  group_row (key, group) = summarize_runs (map (λ k. k.1) group) >>= λ totals. ok (key, totals)

  abbrev pub harness_version_of : Fields F → Result ℤ
  harness_version_of run = index "harness_version" run >>= to_int

  -- `str(run["failure_category"])` for the runs that pass a test and have one.
  abbrev pub categories : (Fields F → Bool) → List (Fields F) → Result (List String)
  categories p runs =
      map_result (λ run. text_of (get "failure_category" run))
        (filter (λ run. p run && truthy (get "failure_category" run)) runs)

  abbrev pub is_unavailable_run : Fields F → Bool
  is_unavailable_run run = eq_str (get "trial_status" run) "unavailable"

  -- `by_model` and `by_scenario_model`.
  unfoldable pub model_rows : List (Keyed F) → Result (List (ModelKey × Totals F))
  unfolding group_into
  model_rows keyed =
      map_result group_row (sort (λ a b. model_key_leb a.0 b.0) (group_into (λ k. k.0.0) keyed []))

  unfoldable pub scenario_rows : List (Keyed F) → Result (List (ScenarioKey × Totals F))
  unfolding group_into
  scenario_rows keyed =
      map_result group_row
        (sort (λ a b. scenario_key_leb a.0 b.0) (group_into (λ k. k.0.1) keyed []))

  unfoldable pub build_summary :
      (FilePath → Bool) → String → List (WorkerResult F) → String → Fields F → Result (Summary F)
  unfolding collect_runs model_rows scenario_rows
  build_summary is_file now worker_results started_at benchmark = do
    collected ← collect_runs is_file benchmark worker_results
    versions ← map_result harness_version_of collected.1
    keyed ← map_result keyed_run collected.1
    by_model ← model_rows keyed
    by_scenario_model ← scenario_rows keyed
    failure_categories ← categories is_evaluated collected.1
    unavailable_categories ← categories is_unavailable_run collected.1
    totals ← summarize_runs collected.1
    ok (record {
      schema_version = 1;
      suite = "replaybook-host-matrix-v1";
      harness_version = newest (unique versions);
      harness_versions = sort (λ a b. not (int_ltb b a)) (unique versions);
      started_at = started_at;
      finished_at = now;
      benchmark = benchmark;
      expected_trials = length worker_results;
      received_results = length collected.1;
      totals = totals;
      infrastructure_errors = collected.0;
      failure_categories = counted failure_categories;
      unavailable_categories = counted unavailable_categories;
      by_model = by_model;
      by_scenario_model = by_scenario_model;
      runs = collected.1;
    })

  -- The exit status; what it prints is left out.
  unfoldable pub summary_exit_status : Summary F → ℕ
  summary_exit_status summary =
      if not (is_nil summary.infrastructure_errors)
      then 1
      else if nat_beq summary.totals.unavailable 0
      then 0
      else 1
