-- ===== src/Tests/Report.antt =====
-- The summary of two workers, one of them without a result.
use replaybook.Prelude.{
  ℕ, zero, ◌≡◌, ◌↔◌, refl, true, false, Option, none, some, List, [], ◌∷◌, All,
}
use replaybook.Prelude.Result.{ok}
use replaybook.Json.{Fields}
use replaybook.Matrix.Summary.{Totals, summarize_runs}
use replaybook.Matrix.Summary.Counts.{IsCount, summarize_runs-IsCount}
use replaybook.Matrix.Report.{Summary, build_summary, summary_exit_status}
use replaybook.Matrix.Report.Complete.{
  IsComplete, is_evaluated_worker, build_summary-IsComplete, summary_exit_status_iff,
}
use replaybook.Matrix.Report.Groups.{Adds, build_summary-Adds}
use replaybook.Tests.Data.{nat_floats, worker_a, worker_b, result_a, benchmark_json, no_file}

built :
    (s : Summary ℕ) × (build_summary no_file "now" (worker_a ∷ worker_b ∷ []) "then" benchmark_json
      ≡ ok s)
unfolding build_summary replaybook.Json.Access.get replaybook.Json.Access.index
    replaybook.Json.Access.has_key replaybook.Json.Access.put replaybook.Json.Access.get_or
    replaybook.Prelude.Order.sort summarize_runs
built = (_, refl)

summarized : (t : Totals ℕ) × (summarize_runs (result_a ∷ []) ≡ ok t)
unfolding summarize_runs replaybook.Json.Access.get_or replaybook.Json.Access.get
summarized = (_, refl)

summarize_runs-IsCount_example : IsCount (result_a ∷ []) summarized.0
summarize_runs-IsCount_example = summarize_runs-IsCount (result_a ∷ []) summarized.0 summarized.1

build_summary-IsComplete_example :
    IsComplete no_file benchmark_json (worker_a ∷ worker_b ∷ []) built.0
build_summary-IsComplete_example =
    build_summary-IsComplete no_file benchmark_json "now" (worker_a ∷ worker_b ∷ []) "then" built.0
      built.1

summary_exit_status_iff_example :
    (summary_exit_status built.0 ≡ 0)
    ↔ All (λ w. is_evaluated_worker w ≡ true) (worker_a ∷ worker_b ∷ [])
summary_exit_status_iff_example =
    summary_exit_status_iff no_file benchmark_json "now" (worker_a ∷ worker_b ∷ []) "then" built.0
      built.1

build_summary-Adds_example :
    Adds (built.0).by_model (built.0).totals × Adds (built.0).by_scenario_model (built.0).totals
build_summary-Adds_example =
    build_summary-Adds no_file "now" (worker_a ∷ worker_b ∷ []) "then" benchmark_json built.0
      built.1
