-- ===== src/Matrix/Summary.antt =====
-- `summarize_runs` of integrations/host/run_host_matrix.py: the counts, medians and sums over the
-- results of a group of trials.
pub mod Counts
use replaybook.Prelude.{
  ℕ, ◌-◌, String, Bool, true, false, not, ◌&&◌, Option, none, some, List, [], ◌∷◌, map, is_nil,
  filter, length, count_if, if◌then◌else◌,
}
use replaybook.Prelude.Int.{ℤ, pos, int_beq, int_sum}
use replaybook.Prelude.Result.{Result, ok, err, ◌>>=◌, map_result}
use replaybook.Json.{Value, bool, int, float, str, Fields}
use replaybook.Json.Floats.{Floats}
use replaybook.Json.Access.{get, get_or, has_key, as_obj, is_null, dict_of, eq_str, truthy, or_else}
use replaybook.Json.Numbers.{iterate, to_float, to_int, least, larger, median, int_median}

-- The dict that `summarize_runs` returns.
pub record Totals (F : Type 0) : Type 0 where
  pub trials : ℕ
  pub evaluated : ℕ
  pub unavailable : ℕ
  pub passed : ℕ
  pub failed : ℕ
  pub durable_repairs_after_timeout : ℕ
  pub pass_rate : Option F
  pub median_duration_seconds : Option F
  pub known_cost_usd : Value F
  pub cost_reported_trials : ℕ
  pub input_tokens : ℤ
  pub output_tokens : ℤ
  pub cache_read_tokens : ℤ
  pub cache_creation_tokens : ℤ
  pub cache_read_reported_trials : ℕ
  pub cache_creation_reported_trials : ℕ
  pub usage_reported_trials : ℕ
  pub recording_reported_trials : ℕ
  pub median_model_rounds : Value F
  pub median_model_duration_seconds : Option F
  pub median_tool_calls : Value F
  pub median_tool_duration_seconds : Option F
  pub median_first_non_read_only_tool_seconds : Option F
  pub median_post_first_non_read_only_seconds : Option F

abbrev pub somes {ℓ} : {A : Type ℓ} → List (Option A) → List A
somes [] = []
somes (none ∷ os) = somes os
somes (some a ∷ os) = a ∷ somes os

module _ {F : Type 0} where
  -- `[run[key] for run in runs if isinstance(run.get(key), dict)]`
  abbrev pub dicts_at : String → List (Fields F) → List (Fields F)
  dicts_at key [] = []
  dicts_at key (run ∷ runs) = elim (as_obj (get key run)) [
    | none ↦ dicts_at key runs
    | some d ↦ d ∷ dicts_at key runs
  ]

  -- `run.get("trial_status", "evaluated") == "evaluated"`
  abbrev pub is_evaluated : Fields F → Bool
  is_evaluated run = eq_str (get_or "trial_status" (str "evaluated") run) "evaluated"

  -- `isinstance(v, dict)` with a test on the dict.
  abbrev pub dict_with : (Fields F → Bool) → Value F → Bool
  dict_with p v = elim (as_obj v) [ none ↦ false | some d ↦ p d ]

  -- `v is True` and `v is False`
  abbrev pub is_bool : Bool → Value F → Bool
  is_bool b (bool true) = b
  is_bool b (bool false) = not b
  is_bool b _ = false

  -- The term of the sum `durable_repairs_after_timeout`.
  abbrev pub is_durable_repair : Fields F → Bool
  is_durable_repair run =
      eq_str (get "failure_category" run) "agent_timeout"
      && dict_with
          (λ v.
            dict_with (λ d. is_bool true (get "durable_repair" d)) (get "after_agent_timeout" v))
          (get "verification" run)

  abbrev pub reports : String → Fields F → Bool
  reports key d = not (is_null (get key d))

module _ {F : Type 0} ⦃fl : Floats F⦄ where
  -- `[float(d[key]) for d in ds if d.get(key) is not None]`
  abbrev pub floats_at : String → List (Fields F) → Result (List F)
  floats_at key ds = map_result (λ d. to_float (get key d)) (filter (reports key) ds)

  -- `sum(costs)`, the integer 0 for no costs.
  abbrev pub cost_sum : List F → Value F
  cost_sum [] = int (pos 0)
  cost_sum (x ∷ xs) = float (fl.sum (x ∷ xs))

  abbrev pub float_sum : List F → F
  float_sum [] = fl.of_int (pos 0)
  float_sum (x ∷ xs) = fl.sum (x ∷ xs)

  -- The items of `recording.get(key) or []`.
  abbrev pub entries_at : String → Fields F → Result (List (Value F))
  entries_at key recording =
      if truthy (get key recording) then iterate (get key recording) else ok []

  -- `len(recording.get(key) or [])`
  abbrev pub count_at : String → Fields F → Result ℤ
  count_at key recording = entries_at key recording >>= λ items. ok (pos (length items))

  -- `float(entry.get(key) or 0)`
  abbrev pub number_at : String → Fields F → Result F
  number_at key entry = to_float (or_else (get key entry) (int (pos 0)))

  -- `int(usage.get(key) or 0)`
  abbrev pub int_at : String → Fields F → Result ℤ
  int_at key usage = to_int (or_else (get key usage) (int (pos 0)))

  abbrev pub seconds : F → F
  seconds ms = fl.div ms (fl.of_int (pos 1000))

  -- `sum(float(entry.get("duration_ms") or 0) for entry in ...) / 1000`
  abbrev pub duration_at : String → Fields F → Result F
  duration_at key recording = entries_at key recording >>= λ entries.
      map_result (λ v. dict_of v >>= number_at "duration_ms") entries >>= λ times.
      ok (seconds (float_sum times))

  -- The start of a tool that is not read-only.
  abbrev pub change_start : Value F → Result (Option F)
  change_start v = dict_of v >>= λ tool.
      if is_bool false (get "read_only" tool)
      then (number_at "started_after_ms" tool >>= λ ms. ok (some (seconds ms)))
      else ok none

  -- The first start of such a tool in a recording, and the time left behind it; none where every
  -- tool is read-only.
  abbrev pub first_change : Fields F → Result (Option (F × F))
  first_change recording = entries_at "tools" recording >>= λ tools.
      map_result change_start tools >>= λ starts. elim (somes starts) [
        | [] ↦ ok none
        | start ∷ more ↦ number_at "total_duration_ms" recording >>= λ total. ok (
            some (
              least start more,
              larger (fl.of_int (pos 0)) (fl.sub (seconds total) (least start more)),
            ))
      ]

  -- `int(run.get("reward", 0)) == 1`
  abbrev pub is_passed : Fields F → Result Bool
  is_passed run = to_int (get_or "reward" (int (pos 0)) run) >>= λ z. ok (int_beq z (pos 1))

  abbrev pub pass_rate_of : ℕ → ℕ → Bool → Option F
  pass_rate_of passed evaluated nothing =
      if nothing then none else some (fl.div (fl.of_int (pos passed)) (fl.of_int (pos evaluated)))

  unfoldable pub summarize_runs : List (Fields F) → Result (Totals F)
  summarize_runs runs =
      let evaluated = filter is_evaluated runs in
      let usages = dicts_at "usage" runs in
      let recordings = dicts_at "recording" runs in
      do
        durations ← floats_at "agent_duration_seconds" evaluated
        costs ← floats_at "cost_usd" usages
        model_round_counts ← map_result (count_at "model_rounds") recordings
        model_durations ← map_result (duration_at "model_rounds") recordings
        tool_counts ← map_result (count_at "tools") recordings
        tool_durations ← map_result (duration_at "tools") recordings
        changes ← map_result first_change recordings
        passes ← map_result is_passed evaluated
        input_tokens ← map_result (int_at "input_tokens") usages
        output_tokens ← map_result (int_at "output_tokens") usages
        cache_read_tokens ← map_result (int_at "cache_read_tokens") usages
        cache_creation_tokens ← map_result (int_at "cache_creation_tokens") usages
        ok (record {
          trials = length runs;
          evaluated = length evaluated;
          unavailable = length runs - length evaluated;
          passed = count_if (λ b. b) passes;
          failed = length evaluated - count_if (λ b. b) passes;
          durable_repairs_after_timeout = count_if is_durable_repair evaluated;
          pass_rate = pass_rate_of (count_if (λ b. b) passes) (length evaluated) (is_nil evaluated);
          median_duration_seconds = median durations;
          known_cost_usd = cost_sum costs;
          cost_reported_trials = length costs;
          input_tokens = int_sum input_tokens;
          output_tokens = int_sum output_tokens;
          cache_read_tokens = int_sum cache_read_tokens;
          cache_creation_tokens = int_sum cache_creation_tokens;
          cache_read_reported_trials = count_if (reports "cache_read_tokens") usages;
          cache_creation_reported_trials = count_if (reports "cache_creation_tokens") usages;
          usage_reported_trials = length usages;
          recording_reported_trials = length recordings;
          median_model_rounds = int_median model_round_counts;
          median_model_duration_seconds = median model_durations;
          median_tool_calls = int_median tool_counts;
          median_tool_duration_seconds = median tool_durations;
          median_first_non_read_only_tool_seconds = median (map (λ c. c.0) (somes changes));
          median_post_first_non_read_only_seconds = median (map (λ c. c.1) (somes changes));
        })
