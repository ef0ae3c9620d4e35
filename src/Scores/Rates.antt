-- ===== src/Scores/Rates.antt =====
-- `observed_scenario_rates` and `scenario_profiles` of integrations/host/benchmark_scores.py. A key
-- that a card may lack is an option.
pub mod Sums
use replaybook.Prelude.{
  ℕ, ◌+◌, String, Bool, true, false, ◌&&◌, ◌||◌, Option, none, some, List, [], ◌∷◌, ◌++◌, map,
  length, nat_beq, if◌then◌else◌,
}
use replaybook.Prelude.Int.{ℤ, pos, negsuc, int_beq, int_eq, int_ltb, sub_nat}
use replaybook.Prelude.Eq.{◌==◌, string_eq, pair_eq}
use replaybook.Prelude.Dict.{Dict, alter}
use replaybook.Prelude.Order.{sort, string_leb}
use replaybook.Json.Floats.{Floats}
use replaybook.Scores.{ScenarioKey, hundred}

pub record RatedCell : Type 0 where
  pub scenario : String
  pub version : ℤ
  pub label : Option String
  pub passed : ℕ
  pub trials : ℕ
  pub unavailable : ℕ
  pub outcome : Option String
  pub evidence_url : Option String

pub record RatedCard : Type 0 where
  pub label : Option String
  pub model : Option String
  pub provider : Option String
  pub reasoning : Option String
  pub release : Option String
  pub harness_id : Option String
  pub harness_label : Option String
  pub cells : List RatedCell

pub record CellOutcome : Type 0 where
  pub label : String
  pub model : Option String
  pub provider : Option String
  pub reasoning : Option String
  pub release : Option String
  pub harness : Option String
  pub passed : ℕ
  pub trials : ℕ
  pub unavailable : ℕ
  pub outcome : Option String
  pub evidence_url : Option String

-- A value of the dict `scenarios`.
pub record ScenarioRow : Type 0 where
  pub scenario : String
  pub version : ℤ
  pub label : String
  pub configurations : ℕ
  pub passed : ℕ
  pub trials : ℕ
  pub unavailable : ℕ
  pub outcomes : List CellOutcome

pub record ScenarioRate (F : Type 0) : Type 0 where
  pub row : ScenarioRow
  pub unsuccessful : ℤ
  pub failure_rate : Option F

pub record ScenarioProfile (F : Type 0) : Type 0 where
  pub harness : String
  pub configurations : ℕ
  pub rates : List (ScenarioRate F)

abbrev pub or_text : Option String → String → String
or_text none default = default
or_text (some s) default = s

abbrev pub cell_key : RatedCell → ScenarioKey
cell_key cell = (cell.scenario, cell.version)

unfoldable pub fresh_row : RatedCell → ScenarioRow
fresh_row cell = record {
  scenario = cell.scenario;
  version = cell.version;
  label = or_text cell.label cell.scenario;
  configurations = 0;
  passed = 0;
  trials = 0;
  unavailable = 0;
  outcomes = [];
}

unfoldable pub outcome_of : RatedCard → RatedCell → CellOutcome
outcome_of card cell = record {
  label = or_text card.label (or_text card.model "Configuration");
  model = card.model;
  provider = card.provider;
  reasoning = card.reasoning;
  release = card.release;
  harness = card.harness_label;
  passed = cell.passed;
  trials = cell.trials;
  unavailable = cell.unavailable;
  outcome = cell.outcome;
  evidence_url = cell.evidence_url;
}

unfoldable pub count_cell : RatedCard → RatedCell → ScenarioRow → ScenarioRow
unfolding outcome_of
count_cell card cell row = record row {
  configurations = row.configurations + 1;
  passed = row.passed + cell.passed;
  trials = row.trials + cell.trials;
  unavailable = row.unavailable + cell.unavailable;
  outcomes = row.outcomes ++ outcome_of card cell ∷ [];
}

abbrev pub ScenarioRows : Type 0
ScenarioRows = Dict ScenarioKey ScenarioRow

-- The loop over the cells of a card, and the one over the cards.
unfoldable pub count_cells : RatedCard → List RatedCell → ScenarioRows → ScenarioRows
unfolding fresh_row count_cell alter
count_cells card [] rows = rows
count_cells card (cell ∷ cells) rows =
    count_cells card cells (alter (fresh_row cell) (count_cell card cell) (cell_key cell) rows)

unfoldable pub count_cards : List RatedCard → ScenarioRows → ScenarioRows
unfolding count_cells
count_cards [] rows = rows
count_cards (card ∷ cards) rows = count_cards cards (count_cells card card.cells rows)

-- `selections.setdefault(harness, []).append(card)`, where the harness has a name.
abbrev pub select_card : RatedCard → Dict String (List RatedCard) → Dict String (List RatedCard)
select_card card selections = elim card.harness_id [
  | none ↦ selections
  | some harness ↦
      if harness == ""
      then selections
      else alter [] (λ cards. cards ++ card ∷ []) harness selections
]

abbrev pub select_cards :
    List RatedCard → Dict String (List RatedCard) → Dict String (List RatedCard)
select_cards [] selections = selections
select_cards (card ∷ cards) selections = select_cards cards (select_card card selections)

module _ {F : Type 0} ⦃fl : Floats F⦄ where
  -- `100 * unsuccessful / trials if trials else None`
  unfoldable pub rate_of : ScenarioKey × ScenarioRow → ScenarioRate F
  rate_of (key, row) = record {
    row = row;
    unsuccessful = sub_nat row.trials row.passed;
    failure_rate =
        if nat_beq row.trials 0
        then none
        else some (
            fl.div (fl.mul hundred (fl.of_int (sub_nat row.trials row.passed)))
              (fl.of_int (pos row.trials)));
  }

  abbrev pub rate_or_zero : Option F → F
  rate_or_zero none = fl.of_int (pos 0)
  rate_or_zero (some x) = x

  abbrev pub is_missing : Option F → Bool
  is_missing none = true
  is_missing (some x) = false

  -- The order of the sort: rates before missing ones, high rates first, then scenario and version.
  abbrev pub name_leb : ScenarioRate F → ScenarioRate F → Bool
  name_leb a b =
      if a.row.scenario == b.row.scenario
      then int_ltb a.row.version b.row.version || int_beq a.row.version b.row.version
      else string_leb a.row.scenario b.row.scenario

  abbrev pub rate_leb : ScenarioRate F → ScenarioRate F → Bool
  rate_leb a b =
      if is_missing a.failure_rate
      then (if is_missing b.failure_rate then name_leb a b else false)
      else if is_missing b.failure_rate
      then true
      else if fl.eq (rate_or_zero a.failure_rate) (rate_or_zero b.failure_rate)
      then name_leb a b
      else fl.lt (rate_or_zero b.failure_rate) (rate_or_zero a.failure_rate)

  unfoldable pub observed_scenario_rates : List RatedCard → List (ScenarioRate F)
  unfolding count_cards rate_of
  observed_scenario_rates cards = sort rate_leb (map rate_of (count_cards cards []))

  abbrev pub profile_of : String × List RatedCard → ScenarioProfile F
  profile_of (harness, selected) = record {
    harness = harness;
    configurations = length selected;
    rates = observed_scenario_rates selected;
  }

  unfoldable pub scenario_profiles : List RatedCard → List (ScenarioProfile F)
  unfolding observed_scenario_rates alter
  scenario_profiles cards = map profile_of (select_cards cards (("", cards) ∷ []))
