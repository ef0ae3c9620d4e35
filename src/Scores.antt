-- ===== src/Scores.antt =====
-- `score_release` of integrations/host/benchmark_scores.py, and the numbers of a scenario over the
-- complete cards. A release has the types that publish_benchmarks.py gives it.
pub mod Complete
pub mod Rates
use replaybook.Prelude.{
  ◌≡◌, ◌↔◌, arith, ℕ, ◌+◌, ◌*◌, String, Bool, true, false, not, ◌&&◌, ◌||◌, Option, none, some,
  List, [], ◌∷◌, ◌++◌, map, filter, length, count_if, sum, all, is_nil, nat_beq, if◌then◌else◌,
}
use replaybook.Prelude.Int.{ℤ, pos, int_beq, int_eq, to_nat}
use replaybook.Prelude.Eq.{Eq, ◌==◌, string_eq, option_eq, option_beq_iff, list_eq, pair_eq, elem}
use replaybook.Prelude.Dict.{Dict, lookup, alter}
use replaybook.Prelude.Text.{◌<>◌}
use replaybook.Prelude.Order.{sort, string_leb}
use replaybook.Prelude.Result.{Result, ok, err, value_error, raise_if, ◌>>=◌, ◌>>◌}
use replaybook.Json.Floats.{Floats}
use replaybook.Manifest.{BenchmarkManifest, BenchmarkScenario}
use replaybook.Phase.Values.{repr}

-- A row of `by_scenario_model`.
pub record AggregateRow : Type 0 where
  pub provider : Option String
  pub model : String
  pub reasoning_effort : Option String
  pub scenario : String
  pub scenario_version : ℤ
  pub passed : ℕ
  pub evaluated : ℕ
  pub trials : ℕ
  pub unavailable : ℕ

-- What the scores read of `compatibility`; an absent manifest has no fields.
pub record Compatibility : Type 0 where
  pub manifest_tier : Option String
  pub manifest_id : Option String
  pub manifest_sha256 : Option String
  pub manifest_version : Option String
  pub attempts : ℤ
  pub agent_timeout_seconds : ℤ
  pub harness_versions : Option (List (Option ℤ))
  pub harness_version : Option ℤ

pub record Release : Type 0 where
  pub version : String
  pub compatibility : Compatibility
  pub by_scenario_model : List AggregateRow

pub record Cell : Type 0 where
  pub scenario : String
  pub version : ℤ
  pub passed : ℕ
  pub evaluated : ℕ
  pub trials : ℕ
  pub unavailable : ℕ
  pub complete : Bool

pub record Card (F : Type 0) : Type 0 where
  pub model : String
  pub label : String
  pub provider : String
  pub reasoning : String
  pub score : Option F
  pub status : String
  pub repair_score : Option F
  pub repair_covered : ℕ
  pub covered : ℕ
  pub required : ℕ
  pub complete_scenarios : ℕ
  pub evaluated : ℕ
  pub trials : ℕ
  pub unavailable : ℕ
  pub availability : Option F
  pub cells : List Cell

pub record ScoreReport (F H : Type 0) : Type 0 where
  pub release : String
  pub benchmark : String
  pub target_version : String
  pub source_version : Option String
  pub exact_contract : Bool
  pub attempts : ℤ
  pub harness : H
  pub cards : List (Card F)

-- Provider, model and reasoning effort; scenario and version.
abbrev pub LaneKey : Type 0
LaneKey = Option String × String × Option String

abbrev pub ScenarioKey : Type 0
ScenarioKey = String × ℤ

abbrev pub lane_key : AggregateRow → LaneKey
lane_key row = (row.provider, row.model, row.reasoning_effort)

abbrev pub scenario_key : AggregateRow → ScenarioKey
scenario_key row = (row.scenario, row.scenario_version)

abbrev pub scenario_entry_key : BenchmarkScenario → ScenarioKey
scenario_entry_key s = (s.id, s.version)

-- `==` on lanes.
unfoldable pub same_lane : LaneKey → LaneKey → Bool
same_lane (p, m, r) (q, n, s) = p == q && m == n && r == s

pub same_lane_iff : (a b : LaneKey) → (same_lane a b ≡ true) ↔ (a ≡ b)
unfolding same_lane
same_lane_iff (p, m, r) (q, n, s) = (
  (λ h. ground (arith, option_beq_iff p q, (string_eq).beq_iff m n, option_beq_iff r s)),
  (λ h. ground (arith, option_beq_iff p q, (string_eq).beq_iff m n, option_beq_iff r s)),
)

instance abbrev pub lane_eq : Eq LaneKey
lane_eq = record { beq = same_lane; beq_iff = same_lane_iff }

abbrev pub Rows : Type 0
Rows = Dict ScenarioKey AggregateRow

abbrev pub Lanes : Type 0
Lanes = Dict LaneKey Rows

abbrev pub rows_or_none : Option Rows → Rows
rows_or_none none = []
rows_or_none (some rows) = rows

-- `groups[key]`
unfoldable pub rows_of : LaneKey → Lanes → Rows
unfolding lookup
rows_of key groups = rows_or_none (lookup key groups)

-- `groups[key][scenario] = row`
unfoldable pub add_row : LaneKey → AggregateRow → Lanes → Lanes
unfolding alter
add_row key row groups = alter [] (λ rows. rows ++ (scenario_key row, row) ∷ []) key groups

unfoldable pub group_rows : List AggregateRow → Lanes → Result Lanes
unfolding rows_of add_row
group_rows [] groups = ok groups
group_rows (row ∷ rows) groups =
    raise_if (elem (scenario_key row) (map (λ e. e.0) (rows_of (lane_key row) groups)))
      "duplicate scenario aggregate in lane"
    >> group_rows rows (add_row (lane_key row) row groups)

abbrev pub repr_option : Option String → String
repr_option none = "None"
repr_option (some s) = repr s

-- `str(key)` of a lane, by which the lanes are sorted.
abbrev pub lane_text : LaneKey → String
lane_text (provider, model, reasoning) =
    "(" <> repr_option provider <> ", " <> repr model <> ", " <> repr_option reasoning <> ")"

abbrev pub empty_cell : BenchmarkScenario → Cell
empty_cell expected = record {
  scenario = expected.id;
  version = expected.version;
  passed = 0;
  evaluated = 0;
  trials = 0;
  unavailable = 0;
  complete = false;
}

-- The cell of an expected scenario.
unfoldable pub cell_of : ℤ → Rows → BenchmarkScenario → Cell
unfolding lookup
cell_of attempts rows expected = elim (lookup (scenario_entry_key expected) rows) [
  | none ↦ empty_cell expected
  | some row ↦ record {
    scenario = expected.id;
    version = expected.version;
    passed = row.passed;
    evaluated = row.evaluated;
    trials = row.trials;
    unavailable = row.unavailable;
    complete = int_beq (pos row.trials) attempts;
  }
]

-- `set(xs) == set(ys)`
abbrev pub same_set : List ScenarioKey → List ScenarioKey → Bool
same_set xs ys = all (λ x. elem x ys) xs && all (λ y. elem y xs) ys

-- The test `complete` of a lane.
unfoldable pub is_complete : BenchmarkManifest → Bool → Rows → List Cell → Bool
is_complete benchmark exact_contract rows cells =
    exact_contract
    && same_set (map (λ e. e.0) rows) (map scenario_entry_key benchmark.scenarios)
    && all (λ c. c.complete) cells

abbrev pub is_scored_tier : Option String → Bool
is_scored_tier none = false
is_scored_tier (some tier) = tier == "core" || tier == "frontier"

-- `compatibility.get("harness_versions", [compatibility.get("harness_version")])`
abbrev pub harness_versions_of : Compatibility → List (Option ℤ)
harness_versions_of c = elim c.harness_versions [
  | none ↦ c.harness_version ∷ []
  | some versions ↦ versions
]

unfoldable pub exact_contract_of : Compatibility → BenchmarkManifest → Bool
exact_contract_of c benchmark =
    c.manifest_sha256 == some benchmark.sha256
    && c.manifest_version == some benchmark.version
    && int_beq c.attempts benchmark.attempts
    && int_beq c.agent_timeout_seconds benchmark.agent_timeout_seconds
    && harness_versions_of c == some benchmark.required_host_harness_version ∷ []

-- `value or default`
abbrev pub text_or : Option String → String → String
text_or none default = default
text_or (some s) default = if s == "" then default else s

module _ {F : Type 0} ⦃fl : Floats F⦄ where
  abbrev pub hundred : F
  hundred = fl.of_int (pos 100)

  abbrev pub ratio : ℕ → ℕ → F
  ratio a b = fl.div (fl.of_int (pos a)) (fl.of_int (pos b))

  -- `100 * statistics.mean(...) if cells else None`
  abbrev pub mean_rate : (Cell → F) → List Cell → Option F
  mean_rate rate [] = none
  mean_rate rate (c ∷ cells) = some (fl.mul hundred (fl.mean (map rate (c ∷ cells))))

  -- `100 * evaluated / trials if trials else None`
  abbrev pub availability_of : ℕ → ℕ → Option F
  availability_of evaluated trials =
      if nat_beq trials 0
      then none
      else some (fl.div (fl.of_int (pos (100 * evaluated))) (fl.of_int (pos trials)))

  -- The card of a lane; `label` is `publisher.label` on models.
  unfoldable pub card_of : (String → String) → BenchmarkManifest → Bool → LaneKey × Rows → Card F
  unfolding cell_of is_complete
  card_of label benchmark exact_contract ((provider, model, reasoning), rows) =
      let cells = map (cell_of benchmark.attempts rows) benchmark.scenarios in
      let observed = filter (λ c. not (nat_beq c.trials 0)) cells in
      let evaluated_cells = filter (λ c. not (nat_beq c.evaluated 0)) cells in
      let evaluated = sum (map (λ c. c.evaluated) cells) in
      let trials = sum (map (λ c. c.trials) cells) in
      record {
        model = model;
        label = label model;
        provider = text_or provider "unreported";
        reasoning = text_or reasoning "default";
        score = mean_rate (λ c. ratio c.passed c.trials) observed;
        status =
            if is_complete benchmark exact_contract rows cells then "complete" else "provisional";
        repair_score = mean_rate (λ c. ratio c.passed c.evaluated) evaluated_cells;
        repair_covered = length evaluated_cells;
        covered = length observed;
        required = length cells;
        complete_scenarios = count_if (λ c. c.complete) cells;
        evaluated = evaluated;
        trials = trials;
        unavailable = sum (map (λ c. c.unavailable) cells);
        availability = availability_of evaluated trials;
        cells = cells;
      }

  -- `harness` is `publisher.normalized_agent_harness` of the release.
  unfoldable pub score_release :
      {H : Type 0} → (String → String) → H → Release → BenchmarkManifest → Result (ScoreReport F H)
  unfolding group_rows card_of exact_contract_of
  score_release label harness release benchmark =
      let c = release.compatibility in
      do
        raise_if (not (is_scored_tier benchmark.tier) || not (c.manifest_tier == benchmark.tier))
            "scores require matching, explicitly identified Core or frontier evidence"
        raise_if (not (c.manifest_id == some benchmark.id)) "source and target benchmark IDs differ"
        groups ← group_rows release.by_scenario_model []
        ok (record {
          release = release.version;
          benchmark = benchmark.id;
          target_version = benchmark.version;
          source_version = c.manifest_version;
          exact_contract = exact_contract_of c benchmark;
          attempts = benchmark.attempts;
          harness = harness;
          cards =
              map (card_of label benchmark (exact_contract_of c benchmark))
                (sort (λ a b. string_leb (lane_text a.0) (lane_text b.0)) groups);
        })
