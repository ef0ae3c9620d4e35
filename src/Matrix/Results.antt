-- ===== src/Matrix/Results.antt =====
-- Result files of trials: `load_result`, `WorkerResult`, `completed_worker` and the identity test of
-- `run_worker` in integrations/host/run_host_matrix.py.
pub mod Validity
pub mod Loaded
pub mod Collected
pub mod Completed
use replaybook.Prelude.{
  String, Bool, true, false, not, ◌&&◌, ◌||◌, Option, none, some, List, [], ◌∷◌, ◌++◌,
  if◌then◌else◌, all,
}
use replaybook.Prelude.Int.{ℤ, pos, is_positive}
use replaybook.Prelude.Eq.{◌==◌, elem, string_eq}
use replaybook.Prelude.Text.{FilePath, ◌<>◌}
use replaybook.Prelude.Result.{Result, ok, err, type_error, ◌>>=◌}
use replaybook.Json.{Value, null, bool, int, float, str, arr, obj, Fields}
use replaybook.Json.Floats.{Floats}
use replaybook.Json.Access.{
  get, get_or, has_key, as_obj, as_str, as_int, is_str, eq_str, eq_opt_str, eq_int,
}
use replaybook.Matrix.Jobs.{Job}

-- What stands at a path when it is read: no file, a file that cannot be read or parsed (with the
-- text of the exception), or a JSON document.
pub data Reading (F : Type 0) : Type 0 where
  absent : Reading F
  unreadable : String → Reading F
  document : Value F → Reading F

-- `str(path)`
abbrev pub path_text : FilePath → String
path_text [] = ""
path_text (part ∷ []) = part
path_text (part ∷ next ∷ parts) = part <> "/" <> path_text (next ∷ parts)

pub record WorkerResult (F : Type 0) : Type 0 where
  pub job : Job
  pub exit_code : ℤ
  pub result : Option (Fields F)
  pub error : Option String

-- The pair `(result, error)` of `load_result`.
abbrev pub Loaded : Type 0 → Type 0
Loaded F = Option (Fields F) × Option String

abbrev pub required_fields : List String
required_fields = "harness_version" ∷ "scenario" ∷ "scenario_version" ∷ "model" ∷ "reward" ∷ []

module _ {F : Type 0} where
  -- `isinstance(v, int) and v > 0`
  abbrev pub is_positive_int : Value F → Bool
  is_positive_int v = elim (as_int v) [ none ↦ false | some z ↦ is_positive z ]

  -- `v in {"evaluated", "unavailable"}`: a list or a dict cannot be looked up in a set.
  abbrev pub in_trial_statuses : Value F → Result Bool
  in_trial_statuses (str s) = ok (elem s ("evaluated" ∷ "unavailable" ∷ []))
  in_trial_statuses (arr vs) = err type_error
  in_trial_statuses (obj fs) = err type_error
  in_trial_statuses _ = ok false

module _ {F : Type 0} ⦃fl : Floats F⦄ where
  -- The tests in front of the status, all of them met.
  unfoldable pub valid_values : Fields F → Bool
  valid_values result =
      is_positive_int (get "harness_version" result)
      && is_str (get "scenario" result)
      && is_positive_int (get "scenario_version" result)
      && is_str (get "model" result)
      && (eq_int (get "reward" result) (pos 0) || eq_int (get "reward" result) (pos 1))

  -- The last test is made only where the ones before it pass.
  unfoldable pub valid_fields : Fields F → Result Bool
  valid_fields result =
      if valid_values result
      then in_trial_statuses (get_or "trial_status" (str "evaluated") result)
      else ok false

  -- The end of `load_result`, for a document that is a `dict`.
  unfoldable pub judge_result : FilePath → Fields F → Result (Loaded F)
  judge_result path result =
      if all (λ k. has_key k result) required_fields
      then (valid_fields result >>= λ valid. ok (
          if valid
          then (some result, none)
          else (none, some ("result has invalid required fields: " <> path_text path))))
      else ok (none, some ("result is missing required fields: " <> path_text path))

  unfoldable pub load_result : FilePath → Reading F → Result (Loaded F)
  unfolding judge_result
  load_result path absent = ok (none, some ("result was not written: " <> path_text path))
  load_result path (unreadable text) =
      ok (none, some ("could not read result " <> path_text path <> ": " <> text))
  load_result path (document (obj result)) = judge_result path result
  load_result path (document _) =
      ok (none, some ("result is missing required fields: " <> path_text path))

-- `"oracle" if job.model is None else job.model`
abbrev pub expected_model : Job → String
expected_model j = elim j.model [ none ↦ "oracle" | some model ↦ model ]

module _ {F : Type 0} where
  -- The result carries the scenario, model, effort and (where one is asked for) provider of the job.
  unfoldable pub same_identity : Job → Option String → Fields F → Bool
  same_identity job agent_provider result =
      eq_str (get "scenario" result) job.scenario
      && eq_str (get "model" result) (expected_model job)
      && eq_opt_str (get "reasoning_effort" result) job.reasoning_effort
      && elim agent_provider [ none ↦ true | some p ↦ eq_str (get "provider" result) p ]

module _ {F : Type 0} ⦃fl : Floats F⦄ where
  abbrev pub saved_exit_code : Fields F → ℤ
  saved_exit_code result = if eq_int (get "reward" result) (pos 1) then pos 0 else pos 1

  -- The tests of `completed_worker` on a loaded pair.
  unfoldable pub keep_saved : Job → Option String → Loaded F → Option (WorkerResult F)
  keep_saved job agent_provider (none, error) = none
  keep_saved job agent_provider (some result, error) =
      if same_identity job agent_provider result
      then some (record {
        job = job;
        exit_code = saved_exit_code result;
        result = some result;
        error = error;
      })
      else none

  -- `completed_worker(job, agent_provider)`, given what stands at the job's result path.
  unfoldable pub completed_worker :
      Job → Option String → Reading F → Result (Option (WorkerResult F))
  unfolding keep_saved
  completed_worker job agent_provider reading = do
    loaded ← load_result (job.output_dir ++ "result.json" ∷ []) reading
    ok (keep_saved job agent_provider loaded)

  -- What `run_worker` makes of a loaded pair once the process has ended.
  unfoldable pub settle : Job → Option String → ℤ → Loaded F → WorkerResult F
  settle job agent_provider exit_code (none, error) = record {
    job = job;
    exit_code = exit_code;
    result = none;
    error = error;
  }
  settle job agent_provider exit_code (some result, error) =
      if same_identity job agent_provider result
      then record { job = job; exit_code = exit_code; result = some result; error = error }
      else record {
        job = job;
        exit_code = exit_code;
        result = none;
        error = some ("result identity does not match scheduled job: " <> job.run_id);
      }

  -- The end of `run_worker`, once the process has ended with `exit_code`.
  unfoldable pub collect_worker : Job → Option String → ℤ → Reading F → Result (WorkerResult F)
  unfolding settle
  collect_worker job agent_provider exit_code reading = do
    loaded ← load_result (job.output_dir ++ "result.json" ∷ []) reading
    ok (settle job agent_provider exit_code loaded)
