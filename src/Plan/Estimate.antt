-- ===== src/Plan/Estimate.antt =====
-- `estimate` and the end of `build_plan` of integrations/host/benchmark_plan.py.
use replaybook.Prelude.{
  ℕ, ◌*◌, ◌/◌, String, true, false, not, Option, none, some, List, [], ◌∷◌, ◌++◌, is_nil, length,
  get_elem?, if◌then◌else◌,
}
use replaybook.Prelude.Int.{ℤ, pos, to_nat, int_beq}
use replaybook.Prelude.Eq.{string_eq, option_eq, pair_eq}
use replaybook.Prelude.Dict.{Dict, lookup, alter}
use replaybook.Prelude.Order.{sort}
use replaybook.Prelude.Result.{Result, ok, ◌>>=◌}
use replaybook.Json.{Value, bool, int, float, arr, obj, nil, Fields}
use replaybook.Json.Floats.{Floats}
use replaybook.Json.Access.{get, get_or, dict_of, eq_str}
use replaybook.Json.Numbers.{iterate, to_int}
use replaybook.Manifest.{BenchmarkManifest}
use replaybook.Plan.Lanes.{Lane, provider_id}
use replaybook.Plan.Gaps.{Gap, checked_cell, is_lane_cell}

abbrev pub lane_key : Lane → Lane
lane_key lane = (provider_id lane.0, lane.1)

abbrev pub listed : {A : Type 0} → Option (List A) → List A
listed none = []
listed (some xs) = xs

-- `durations` and `costs`, by lane.
pub record Known (F : Type 0) : Type 0 where
  pub durations : Dict Lane (List F)
  pub costs : Dict Lane (List F)

module _ {F : Type 0} where
  -- The lane whose key a cell has.
  abbrev pub lane_of : List Lane → Option String × Fields F → Option Lane
  lane_of [] cell = none
  lane_of (lane ∷ lanes) cell =
      if is_lane_cell lane cell then some (lane_key lane) else lane_of lanes cell

  unfoldable pub add_known : Dict Lane (List F) → Lane → Option F → Dict Lane (List F)
  unfolding alter
  add_known known key none = known
  add_known known key (some x) = alter [] (λ xs. xs ++ x ∷ []) key known

module _ {F : Type 0} ⦃fl : Floats F⦄ where
  -- `isinstance(v, (int, float))`, with `float(v)`.
  abbrev pub number : Value F → Option F
  number (bool true) = some (fl.of_int (pos 1))
  number (bool false) = some (fl.of_int (pos 0))
  number (int z) = some (fl.of_int z)
  number (float x) = some x
  number _ = none

  -- `float(cost) / reported`, where both are there.
  abbrev pub cost_per_trial : Value F → ℤ → Option F
  cost_per_trial cost reported =
      if int_beq reported (pos 0)
      then none
      else elim (number cost) [ none ↦ none | some x ↦ some (fl.div x (fl.of_int reported)) ]

  -- What a covered cell of a known lane adds.
  abbrev pub cell_known : Lane → Fields F → Known F → Result (Known F)
  cell_known key cell known = to_int (get_or "trials" (int (pos 0)) cell) >>= λ trials.
      to_int (get_or "cost_reported_trials" (int (pos 0)) cell) >>= λ reported. ok (record {
        durations = add_known known.durations key (number (get "median_duration_seconds" cell));
        costs = add_known known.costs key (cost_per_trial (get "known_cost_usd" cell) reported);
      })

  unfoldable pub cells_known : List Lane → List (Value F) → Known F → Result (Known F)
  unfolding add_known
  cells_known lanes [] known = ok known
  cells_known lanes (v ∷ vs) known = dict_of v >>= λ d. checked_cell d >>= λ cell.
      (elim (lane_of lanes cell) [
        | none ↦ ok known
        | some key ↦ if eq_str (get "status" d) "covered" then cell_known key d known else ok known
      ])
      >>= λ next. cells_known lanes vs next

  unfoldable pub scenarios_known : List Lane → List (Value F) → Known F → Result (Known F)
  unfolding cells_known
  scenarios_known lanes [] known = ok known
  scenarios_known lanes (v ∷ vs) known = dict_of v >>= λ scenario.
      iterate (get_or "cells" (arr nil) scenario) >>= λ cells.
      cells_known lanes cells known >>= λ next. scenarios_known lanes vs next

  -- What a lane of the catalog adds where its key has no number yet.
  abbrev pub catalog_lane : Lane → Fields F → Known F → Result (Known F)
  catalog_lane key lane known =
      to_int (get_or "cost_reported_trials" (int (pos 0)) lane) >>= λ reported. ok (record {
        durations =
            if is_nil (listed (lookup key known.durations))
            then add_known known.durations key (number (get "median_duration_seconds" lane))
            else known.durations;
        costs =
            if is_nil (listed (lookup key known.costs))
            then add_known known.costs key (cost_per_trial (get "known_cost_usd" lane) reported)
            else known.costs;
      })

  unfoldable pub catalog_known : List Lane → List (Value F) → Known F → Result (Known F)
  unfolding add_known
  catalog_known lanes [] known = ok known
  catalog_known lanes (obj lane ∷ vs) known = checked_cell lane >>= λ cell.
      (elim (lane_of lanes cell) [ none ↦ ok known | some key ↦ catalog_lane key lane known ])
      >>= λ next. catalog_known lanes vs next
  catalog_known lanes (_ ∷ vs) known = catalog_known lanes vs known

  abbrev pub attempts_float : BenchmarkManifest → F
  attempts_float manifest = fl.of_int manifest.attempts

  -- `sorted(xs)[len(xs) // 2]` and `sum(xs) / len(xs)`, each times the attempts; none for no numbers.
  abbrev pub typical : BenchmarkManifest → List F → Option F
  typical manifest xs = elim (get_elem? (sort (λ x y. not (fl.lt y x)) xs) (length xs / 2)) [
    | none ↦ none
    | some x ↦ some (fl.mul x (attempts_float manifest))
  ]

  abbrev pub mean : BenchmarkManifest → List F → Option F
  mean manifest [] = none
  mean manifest (x ∷ xs) = some (
      fl.mul (fl.div (fl.sum (x ∷ xs)) (fl.of_int (pos (length (x ∷ xs)))))
        (attempts_float manifest))

  -- A total that is unknown once a gap has no number.
  abbrev pub add_total : Option F → Option F → Option F
  add_total (some total) (some x) = some (fl.add total x)
  add_total _ _ = none

  abbrev pub total_of : Dict Lane (List F) → (List F → Option F) → List Gap → Option F → Option F
  total_of known value [] total = total
  total_of known value (gap ∷ gaps) total =
      total_of known value gaps
        (add_total total (value (listed (lookup (lane_key gap.lane) known))))

-- The dict that `estimate` returns. The trials count attempts above 0.
pub record Estimate (F : Type 0) : Type 0 where
  pub trials : ℕ
  pub wall_seconds : Option ℤ
  pub known_cost_usd : Option F

module _ {F : Type 0} ⦃fl : Floats F⦄ where
  abbrev pub wall : Option F → ℤ → Result (Option ℤ)
  wall none concurrency = ok none
  wall (some total) concurrency =
      fl.ceil (fl.div total (fl.of_int concurrency)) >>= λ z. ok (some z)

  abbrev pub rounded : Option F → Option F
  rounded none = none
  rounded (some x) = some (fl.round x 6)

  -- `catalog` is the list of its lanes; no catalog is an empty one.
  unfoldable pub estimate :
      BenchmarkManifest
      → List (Value F)
      → List Lane
      → List Gap
      → ℤ
      → List (Value F)
      → Result (Estimate F)
  unfolding scenarios_known catalog_known
  estimate manifest scenarios lanes gaps concurrency catalog = do
    published ← scenarios_known lanes scenarios (record { durations = []; costs = [] })
    known ← catalog_known lanes catalog published
    seconds ←
        wall (total_of known.durations (typical manifest) gaps (some (fl.of_int (pos 0))))
          concurrency
    ok (record {
      trials = length gaps * to_nat manifest.attempts;
      wall_seconds = seconds;
      known_cost_usd =
          rounded (total_of known.costs (mean manifest) gaps (some (fl.of_int (pos 0))));
    })
