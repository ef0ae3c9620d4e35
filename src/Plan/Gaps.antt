-- ===== src/Plan/Gaps.antt =====
-- `boundary_reason` and `plan_gaps` of integrations/host/benchmark_plan.py. The published coverage is
-- the list `coverage["scenarios"]`, the local one a dict from cells to evaluated trials.
pub mod Coverage
use replaybook.Prelude.{
  ℕ, String, Bool, true, false, not, ◌&&◌, ◌||◌, Option, none, some, List, [], ◌∷◌, ◌++◌, map,
  filter, any, is_nil, if◌then◌else◌,
}
use replaybook.Prelude.Int.{ℤ, pos, int_ltb, int_eq}
use replaybook.Prelude.Eq.{◌==◌, string_eq, option_eq, pair_eq}
use replaybook.Prelude.Dict.{Dict, lookup}
use replaybook.Prelude.Result.{
  Result, ok, err, type_error, attribute_error, raise_if, ◌>>=◌, map_result,
}
use replaybook.Json.{Value, null, bool, int, float, str, arr, obj, Items, Fields, nil, items_list}
use replaybook.Json.Floats.{Floats}
use replaybook.Json.Access.{get, get_or, as_obj, as_arr, eq_str, eq_opt_str, eq_int}
use replaybook.Json.Numbers.{iterate, to_int}
use replaybook.Manifest.{BenchmarkManifest, BenchmarkScenario}
use replaybook.Plan.Lanes.{Lane, provider_id}

pub record Gap : Type 0 where
  pub scenario : String
  pub scenario_version : ℤ
  pub lane : Lane
  pub reason : String

-- `(scenario, version, provider, model, reasoning_effort)`, the provider normalized.
abbrev pub Cell : Type 0
Cell = String × (ℤ × Lane)

abbrev pub lane_cell : BenchmarkScenario → Lane → Cell
lane_cell expected lane = (expected.id, (expected.version, (provider_id lane.0, lane.1)))

abbrev pub or_zero : Option ℤ → ℤ
or_zero none = pos 0
or_zero (some n) = n

-- `local.get(cell, 0) < manifest.attempts`
abbrev pub is_uncovered : BenchmarkManifest → Dict Cell ℤ → BenchmarkScenario → Lane → Bool
is_uncovered manifest covered expected lane =
    int_ltb (or_zero (lookup (lane_cell expected lane) covered)) manifest.attempts

abbrev pub gap_of : BenchmarkScenario → String → Lane → Gap
gap_of expected reason lane = record {
  scenario = expected.id;
  scenario_version = expected.version;
  lane = lane;
  reason = reason;
}

abbrev pub gap_if : BenchmarkScenario → Lane → Option String → List Gap
gap_if expected lane none = []
gap_if expected lane (some reason) = gap_of expected reason lane ∷ []

module _ {F : Type 0} where
  -- A list or a dict cannot be part of a key.
  abbrev pub is_hashable : Value F → Bool
  is_hashable (arr vs) = false
  is_hashable (obj fs) = false
  is_hashable _ = true

  -- The items that are dicts.
  abbrev pub dicts : List (Value F) → List (Fields F)
  dicts [] = []
  dicts (obj fs ∷ vs) = fs ∷ dicts vs
  dicts (_ ∷ vs) = dicts vs

  -- The last item that passes a test: a later entry of a dict replaces an earlier one.
  abbrev pub find_last : (Fields F → Bool) → List (Fields F) → Option (Fields F)
  find_last p [] = none
  find_last p (d ∷ ds) = elim (find_last p ds) [
    | some d' ↦ some d'
    | none ↦ if p d then some d else none
  ]

  -- The key of `cells`: a provider that is neither a text nor `None` has no `casefold`.
  abbrev pub cell_provider : Value F → Result (Option String)
  cell_provider null = ok none
  cell_provider (str s) = ok (provider_id (some s))
  cell_provider _ = err attribute_error

  abbrev pub checked_cell : Fields F → Result (Option String × Fields F)
  checked_cell cell = cell_provider (get "provider" cell) >>= λ provider.
      if is_hashable (get "model" cell) && is_hashable (get "reasoning_effort" cell)
      then ok (provider, cell)
      else err type_error

  abbrev pub is_lane_cell : Lane → Option String × Fields F → Bool
  is_lane_cell lane (provider, cell) =
      provider == provider_id lane.0
      && eq_str (get "model" cell) lane.1.0
      && eq_opt_str (get "reasoning_effort" cell) lane.1.1

  abbrev pub find_cell : Lane → List (Option String × Fields F) → Option (Fields F)
  find_cell lane [] = none
  find_cell lane (c ∷ cells) = elim (find_cell lane cells) [
    | some cell ↦ some cell
    | none ↦ if is_lane_cell lane c then some c.1 else none
  ]

  abbrev pub unpublished_reason : List (Fields F) → BenchmarkScenario → String
  unpublished_reason published expected =
      if any (λ item. eq_str (get "scenario" item) expected.id) published
      then "scenario version changed"
      else "scenario has no published evidence"

  abbrev pub has_hashable_key : Fields F → Bool
  has_hashable_key item =
      is_hashable (get "scenario" item) && is_hashable (get "scenario_version" item)

  abbrev pub hashed : Fields F → Result (Fields F)
  hashed item = if has_hashable_key item then ok item else err type_error

module _ {F : Type 0} ⦃fl : Floats F⦄ where
  -- `isinstance(v, list) and n in v`
  abbrev pub lists_version : Value F → ℤ → Bool
  lists_version v n = elim (as_arr v) [
    | none ↦ false
    | some vs ↦ any (λ x. eq_int x n) (items_list vs)
  ]

  abbrev pub is_published : BenchmarkScenario → Fields F → Bool
  is_published expected item =
      eq_str (get "scenario" item) expected.id
      && eq_int (get "scenario_version" item) expected.version

module _ {F : Type 0} ⦃fl : Floats F⦄ (manifest : BenchmarkManifest) where
  abbrev pub is_pack : Value F → Bool
  is_pack v = elim (as_obj v) [ none ↦ false | some pack ↦ eq_str (get "id" pack) manifest.pack_id ]

  abbrev pub other_tier : Option String → Value F → Bool
  other_tier none v = false
  other_tier (some tier) v = not (eq_str v tier)

  -- The tests of `boundary_reason` on a boundary.
  abbrev pub reason_of_boundary : Fields F → Option String
  reason_of_boundary boundary =
      if not (eq_int (get "attempts" boundary) manifest.attempts)
      then some "attempt count changed"
      else if not (eq_int (get "agent_timeout_seconds" boundary) manifest.agent_timeout_seconds)
      then some "agent timeout changed"
      else if other_tier manifest.tier (get "tier" boundary)
      then some "benchmark tier changed"
      else if not
          (lists_version (get "harness_versions" boundary) manifest.required_host_harness_version)
      then some "host harness changed"
      else if not (is_pack (get "scenario_pack" boundary))
      then some "scenario pack changed"
      else none

  unfoldable pub boundary_reason : Fields F → Option String
  boundary_reason scenario = elim (as_obj (get "boundary" scenario)) [
    | none ↦ some "missing comparison boundary"
    | some boundary ↦ reason_of_boundary boundary
  ]

  -- The reason for a lane where the published boundary is that of the manifest.
  abbrev pub cell_reason : Option (Fields F) → Result (Option String)
  cell_reason none = ok (some "model/scenario cell has no current evidence")
  cell_reason (some cell) =
      if not (eq_str (get "status" cell) "covered")
      then ok (some "model/scenario cell has no current evidence")
      else to_int (get_or "evaluated" (int (pos 0)) cell) >>= λ evaluated. ok (
          if int_ltb evaluated manifest.attempts
          then some "compatible cohort is incomplete"
          else none)

  abbrev pub lane_reason :
      Option String → List (Option String × Fields F) → Lane → Result (Option String)
  lane_reason (some reason) cells lane = ok (some reason)
  lane_reason none cells lane = cell_reason (find_cell lane cells)

  -- The loop over the lanes that have no local coverage.
  unfoldable pub lane_loop :
      BenchmarkScenario
      → Option String
      → List (Option String × Fields F)
      → List Lane
      → Result (List Gap)
  lane_loop expected incompatible cells [] = ok []
  lane_loop expected incompatible cells (lane ∷ lanes) = do
    reason ← lane_reason incompatible cells lane
    gaps ← lane_loop expected incompatible cells lanes
    ok (gap_if expected lane reason ++ gaps)

  -- One round of the outer loop, for the lanes that have no local coverage.
  unfoldable pub scenario_gaps : List (Fields F) → BenchmarkScenario → List Lane → Result (List Gap)
  unfolding boundary_reason lane_loop
  scenario_gaps published expected [] = ok []
  scenario_gaps published expected (lane ∷ lanes) =
      elim (find_last (is_published expected) published) [
        | none ↦ ok (map (gap_of expected (unpublished_reason published expected)) (lane ∷ lanes))
        | some scenario ↦ iterate (get_or "cells" (arr nil) scenario) >>= λ items.
            map_result checked_cell (dicts items) >>= λ cells.
            lane_loop expected (boundary_reason scenario) cells (lane ∷ lanes)
      ]

  unfoldable pub gap_loop :
      List (Fields F) → List Lane → Dict Cell ℤ → List BenchmarkScenario → Result (List Gap)
  unfolding scenario_gaps
  gap_loop published lanes covered [] = ok []
  gap_loop published lanes covered (expected ∷ scenarios) = do
    gaps ← scenario_gaps published expected (filter (is_uncovered manifest covered expected) lanes)
    more ← gap_loop published lanes covered scenarios
    ok (gaps ++ more)

  unfoldable pub plan_gaps : List (Value F) → List Lane → Dict Cell ℤ → Result (List Gap)
  unfolding gap_loop
  plan_gaps scenarios lanes covered = map_result hashed (dicts scenarios) >>= λ published.
      gap_loop published lanes covered manifest.scenarios
