-- ===== src/Tests/Scores.antt =====
-- A release with one complete lane and one that misses a trial.
use replaybook.Prelude.{ℕ, ◌≡◌, refl, String, none, some, List, [], ◌∷◌, All}
use replaybook.Prelude.Int.{pos}
use replaybook.Prelude.Result.{ok}
use replaybook.Manifest.{BenchmarkManifest}
use replaybook.Scores.{AggregateRow, Release, ScoreReport, score_release}
use replaybook.Scores.Complete.{IsCard, score_release-IsCard}
use replaybook.Scores.Rates.{RatedCell, RatedCard, observed_scenario_rates}
use replaybook.Scores.Rates.Sums.{IsSummed, observed_scenario_rates-IsSummed}
use replaybook.Tests.Data.{nat_floats, manifest_013}

abbrev core_013 : BenchmarkManifest
core_013 = record manifest_013 { tier = some "core" }

abbrev row_of : String → ℕ → ℕ → AggregateRow
row_of model passed trials = record {
  provider = some "p";
  model = model;
  reasoning_effort = none;
  scenario = "013";
  scenario_version = pos 2;
  passed = passed;
  evaluated = trials;
  trials = trials;
  unavailable = 0;
}

abbrev release : Release
release = record {
  version = "2026.1";
  compatibility = record {
    manifest_tier = some "core";
    manifest_id = some "core";
    manifest_sha256 = some "0";
    manifest_version = some "1";
    attempts = pos 3;
    agent_timeout_seconds = pos 60;
    harness_versions = none;
    harness_version = some (pos 23);
  };
  by_scenario_model = row_of "b" 2 3 ∷ row_of "a" 1 2 ∷ [];
}

scored : (r : ScoreReport ℕ String) × (score_release (λ m. m) "h" release core_013 ≡ ok r)
unfolding score_release replaybook.Scores.same_lane
scored = (_, refl)

score_release-IsCard_example : All (IsCard (λ m. m) release core_013) scored.0.cards
score_release-IsCard_example =
    score_release-IsCard ℕ (λ m. m) "h" release core_013 scored.0 scored.1

abbrev cell : ℕ → RatedCell
cell passed = record {
  scenario = "013";
  version = pos 2;
  label = none;
  passed = passed;
  trials = 3;
  unavailable = 0;
  outcome = none;
  evidence_url = none;
}

abbrev card : String → List RatedCell → RatedCard
card model cells = record {
  label = none;
  model = some model;
  provider = none;
  reasoning = none;
  release = none;
  harness_id = some "h";
  harness_label = none;
  cells = cells;
}

abbrev cards : List RatedCard
cards = card "a" (cell 1 ∷ cell 2 ∷ []) ∷ card "b" (cell 3 ∷ []) ∷ []

observed_scenario_rates-IsSummed_example : IsSummed ℕ cards (observed_scenario_rates cards)
observed_scenario_rates-IsSummed_example = observed_scenario_rates-IsSummed ℕ cards
