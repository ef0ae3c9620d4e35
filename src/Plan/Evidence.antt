-- ===== src/Plan/Evidence.antt =====
-- Local evidence of integrations/host/benchmark_plan.py: `source_matches` and the counts of
-- `local_coverage`. The sources that `local_sources` reads from the files are the input.
use replaybook.Prelude.{
  String, Bool, true, false, not, ◌&&◌, none, some, List, [], ◌∷◌, any, if◌then◌else◌,
}
use replaybook.Prelude.Int.{ℤ, pos, int_add, int_ltb, int_eq}
use replaybook.Prelude.Eq.{string_eq, option_eq, pair_eq}
use replaybook.Prelude.Dict.{Dict, alter}
use replaybook.Prelude.Result.{Result, ok, err, value_error, type_error, ◌>>=◌, map_result}
use replaybook.Json.{Value, int, arr, obj, nil, end, Fields, items_list}
use replaybook.Json.Floats.{Floats}
use replaybook.Json.Access.{get, get_or, as_arr, dict_of, eq_str, eq_opt_str, eq_int, or_else}
use replaybook.Json.Numbers.{iterate, to_int}
use replaybook.Manifest.{BenchmarkManifest}
use replaybook.Matrix.Report.{text_of, key_text}
use replaybook.Plan.Gaps.{Cell, is_pack, dicts, is_hashable, cell_provider}

abbrev pub int_max : ℤ → ℤ → ℤ
int_max a b = if int_ltb a b then b else a

-- `counts[key] = max(counts[key], evaluated)` for each key of a source.
unfoldable pub merge_counts : Dict Cell ℤ → Dict Cell ℤ → Dict Cell ℤ
unfolding alter
merge_counts [] counts = counts
merge_counts ((cell, evaluated) ∷ source_counts) counts =
    merge_counts source_counts (alter (pos 0) (λ n. int_max n evaluated) cell counts)

module _ {F : Type 0} ⦃fl : Floats F⦄ where
  -- A member of `actual` is a member of `expected`.
  abbrev pub expects : BenchmarkManifest → Fields F → Bool
  expects manifest item =
      any
        (λ scenario.
          eq_str (get "id" item) scenario.id && eq_int (get "version" item) scenario.version)
        manifest.scenarios

  -- The iteration over `source.get(key) or []`.
  abbrev pub items_at : String → Fields F → Result (List (Value F))
  items_at key source = iterate (or_else (get key source) (arr nil))

  abbrev pub hashable_item : Fields F → Result (Fields F)
  hashable_item item =
      if is_hashable (get "id" item) && is_hashable (get "version" item)
      then ok item
      else err type_error

  abbrev pub same_benchmark : BenchmarkManifest → Fields F → Fields F → Bool
  same_benchmark manifest benchmark source =
      eq_str (get "id" benchmark) manifest.id
      && eq_opt_str (get "benchmark_tier" source) manifest.tier
      && eq_int (get "attempts" source) manifest.attempts
      && eq_int (get "agent_timeout_seconds" source) manifest.agent_timeout_seconds

  -- `source_matches`; `harness_versions` is a list where there is one.
  unfoldable pub source_matches : BenchmarkManifest → Fields F → Result Bool
  source_matches manifest source = do
    benchmark ← dict_of (or_else (get "benchmark_manifest" source) (obj end))
    if not (same_benchmark manifest benchmark source) then ok false else do
      versions ← items_at "harness_versions" source
      if not (any (λ v. eq_int v manifest.required_host_harness_version) versions)
          then ok false
          else do
            packs ← items_at "scenario_packs" source
            if not (any (is_pack manifest) packs) then ok false else do
              items ← items_at "scenarios" source
              scenarios ← map_result hashable_item (dicts items)
              ok (any (expects manifest) scenarios)

  -- The key of an evaluated run.
  abbrev pub run_cell : Value F → Fields F → Result Cell
  run_cell source_provider run = do
    scenario ← text_of (get "scenario" run)
    version ← to_int (get_or "scenario_version" (int (pos 0)) run)
    provider ← cell_provider (or_else (get "provider" run) source_provider)
    model ← text_of (get "model" run)
    effort ← key_text (get "reasoning_effort" run)
    ok (scenario, (version, (provider, (model, effort))))

  -- The loop over the runs of a source: `source_counts[key] += 1`.
  unfoldable pub count_runs : Value F → List (Value F) → Dict Cell ℤ → Result (Dict Cell ℤ)
  unfolding alter
  count_runs source_provider [] counts = ok counts
  count_runs source_provider (obj run ∷ runs) counts =
      elim (eq_str (get "trial_status" run) "evaluated") [
        | true ↦ run_cell source_provider run >>= λ cell.
            count_runs source_provider runs (alter (pos 0) (λ n. int_add n (pos 1)) cell counts)
        | false ↦ count_runs source_provider runs counts
      ]
  count_runs source_provider (_ ∷ runs) counts = count_runs source_provider runs counts

  abbrev pub source_runs : Fields F → Result (List (Value F))
  source_runs source = elim (as_arr (get "runs" source)) [
    | none ↦ err (value_error "local evidence has no runs array")
    | some vs ↦ ok (items_list vs)
  ]

  -- `local_coverage`, over the sources of all files in order.
  unfoldable pub local_coverage :
      BenchmarkManifest → List (Fields F) → Dict Cell ℤ → Result (Dict Cell ℤ)
  unfolding source_matches count_runs merge_counts
  local_coverage manifest [] counts = ok counts
  local_coverage manifest (source ∷ sources) counts = source_matches manifest source >>= λ matches.
      elim matches [
        | false ↦ local_coverage manifest sources counts
        | true ↦ source_runs source >>= λ runs.
            count_runs (get "agent_provider" source) runs [] >>= λ source_counts.
            local_coverage manifest sources (merge_counts source_counts counts)
      ]
