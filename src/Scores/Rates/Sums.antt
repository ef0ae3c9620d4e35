-- ===== src/Scores/Rates/Sums.antt =====
-- The sums of `observed_scenario_rates` of benchmark_scores.py.
use replaybook.Prelude.{ℕ, ◌+◌, ◌≡◌, refl, ap, ◌∙◌, List, [], ◌∷◌, map, sum, arith}
use replaybook.Prelude.Int.{int_eq}
use replaybook.Prelude.Eq.{string_eq, pair_eq}
use replaybook.Prelude.Dict.{alter, sum-alter}
use replaybook.Prelude.Order.{sum-sort}
use replaybook.Json.Floats.{Floats}
use replaybook.Scores.Rates.{
  RatedCell, RatedCard, ScenarioRow, ScenarioRate, ScenarioRows, cell_key, fresh_row, count_cell,
  count_cells, count_cards, rate_of, rate_leb, observed_scenario_rates,
}

-- The sum of a number over the cells of the cards.
abbrev pub total : (RatedCell → ℕ) → List RatedCard → ℕ
total n cards = sum (map (λ card. sum (map n card.cells)) cards)

-- A number of the rows that a cell raises by a number of its own, and that is 0 at first.
record IsTally (m : ScenarioRow → ℕ) (n : RatedCell → ℕ) : Type 0 where
  first : (cell : RatedCell) → m (fresh_row cell) ≡ 0
  adds :
      (card : RatedCard) (cell : RatedCell) (row : ScenarioRow)
      → m (count_cell card cell row) ≡ m row + n cell

row_sum : (ScenarioRow → ℕ) → ScenarioRows → ℕ
row_sum m rows = sum (map (λ r. m r.1) rows)

count_cells-sum :
    (m : ScenarioRow → ℕ) (n : RatedCell → ℕ)
    → IsTally m n
    → (card : RatedCard) (cells : List RatedCell) (rows : ScenarioRows)
    → row_sum m (count_cells card cells rows) ≡ row_sum m rows + sum (map n cells)
unfolding count_cells row_sum
count_cells-sum m n t card [] rows = omega arith
count_cells-sum m n t card (cell ∷ cells) rows = omega (
  arith,
  count_cells-sum m n t card cells
      (alter (fresh_row cell) (count_cell card cell) (cell_key cell) rows),
  sum-alter m (fresh_row cell) (count_cell card cell) (n cell) (t.first cell) (t.adds card cell)
      (cell_key cell) rows,
)

count_cards-sum :
    (m : ScenarioRow → ℕ) (n : RatedCell → ℕ)
    → IsTally m n
    → (cards : List RatedCard) (rows : ScenarioRows)
    → row_sum m (count_cards cards rows) ≡ row_sum m rows + total n cards
unfolding count_cards
count_cards-sum m n t [] rows = omega arith
count_cards-sum m n t (card ∷ cards) rows = omega (
  arith,
  count_cards-sum m n t cards (count_cells card card.cells rows),
  count_cells-sum m n t card card.cells rows,
)

all_cards-sum :
    (m : ScenarioRow → ℕ) (n : RatedCell → ℕ)
    → IsTally m n
    → (cards : List RatedCard) → row_sum m (count_cards cards []) ≡ total n cards
unfolding row_sum
all_cards-sum m n t cards = omega (arith, count_cards-sum m n t cards [])

module _ (F : Type 0) ⦃fl : Floats F⦄ where
  rates-sum :
      (m : ScenarioRow → ℕ) (rows : ScenarioRows)
      → sum (map (λ (r : ScenarioRate F). m r.row) (map rate_of rows)) ≡ row_sum m rows
  unfolding rate_of row_sum
  rates-sum m [] = refl
  rates-sum m ((key, row) ∷ rows) = ap (λ n. m row + n) (rates-sum m rows)

  observed-sum :
      (m : ScenarioRow → ℕ) (n : RatedCell → ℕ)
      → IsTally m n
      → (cards : List RatedCard)
      → sum (map (λ (r : ScenarioRate F). m r.row) (observed_scenario_rates cards)) ≡ total n cards
  unfolding observed_scenario_rates row_sum
  observed-sum m n t cards =
      sum-sort rate_leb (λ (r : ScenarioRate F). m r.row) (map rate_of (count_cards cards []))
      ∙ rates-sum m (count_cards cards [])
      ∙ all_cards-sum m n t cards

  -- The rates of the scenarios over the cells of the cards.
  pub record IsSummed (cards : List RatedCard) (rates : List (ScenarioRate F)) : Type 0 where
    pub configurations :
        sum (map (λ (r : ScenarioRate F). r.row.configurations) rates) ≡ total (λ c. 1) cards
    pub passed :
        sum (map (λ (r : ScenarioRate F). r.row.passed) rates) ≡ total (λ c. c.passed) cards
    pub trials :
        sum (map (λ (r : ScenarioRate F). r.row.trials) rates) ≡ total (λ c. c.trials) cards
    pub unavailable :
        sum (map (λ (r : ScenarioRate F). r.row.unavailable) rates)
        ≡ total (λ c. c.unavailable) cards

  -- The rates of the scenarios add up to the cards: their configurations to the cells, and their
  -- passed, recorded and unavailable trials to those of the cells.
  pub observed_scenario_rates-IsSummed :
      (cards : List RatedCard) → IsSummed cards (observed_scenario_rates cards)
  unfolding fresh_row count_cell
  observed_scenario_rates-IsSummed cards = record {
    configurations =
        observed-sum (λ r. r.configurations) (λ c. 1)
          (record { first = λ c. refl; adds = λ a c r. refl }) cards;
    passed =
        observed-sum (λ r. r.passed) (λ c. c.passed)
          (record { first = λ c. refl; adds = λ a c r. refl }) cards;
    trials =
        observed-sum (λ r. r.trials) (λ c. c.trials)
          (record { first = λ c. refl; adds = λ a c r. refl }) cards;
    unavailable =
        observed-sum (λ r. r.unavailable) (λ c. c.unavailable)
          (record { first = λ c. refl; adds = λ a c r. refl }) cards;
  }
