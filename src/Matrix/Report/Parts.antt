-- ===== src/Matrix/Report/Parts.antt =====
-- The parts that `build_summary` of run_host_matrix.py puts together.
use replaybook.Prelude.{◌≡◌, refl, subst, String, Bool, List, length}
use replaybook.Prelude.Text.{FilePath}
use replaybook.Prelude.Result.{ok, >>=-eq-ok, map_result, ok-injective}
use replaybook.Json.{Fields}
use replaybook.Json.Floats.{Floats}
use replaybook.Matrix.Results.{WorkerResult}
use replaybook.Matrix.Summary.{is_evaluated, summarize_runs}
use replaybook.Matrix.Report.{
  Summary, Keyed, collect_runs, keyed_run, harness_version_of, model_rows, scenario_rows,
  categories, is_unavailable_run, build_summary,
}

module _ {F : Type 0} ⦃fl : Floats F⦄ (is_file : FilePath → Bool) (benchmark : Fields F) where
  -- Where the parts of a summary come from.
  pub record IsBuilt (ws : List (WorkerResult F)) (s : Summary F) : Type 0 where
    pub collected : collect_runs is_file benchmark ws ≡ ok (s.infrastructure_errors, s.runs)
    pub keyed : List (Keyed F)
    pub keys : map_result keyed_run s.runs ≡ ok keyed
    pub models : model_rows keyed ≡ ok s.by_model
    pub scenarios : scenario_rows keyed ≡ ok s.by_scenario_model
    pub totals : summarize_runs s.runs ≡ ok s.totals
    pub expected : s.expected_trials ≡ length ws
    pub received : s.received_results ≡ length s.runs

  pub build_summary-IsBuilt :
      (now : String) (ws : List (WorkerResult F)) (started_at : String) (s : Summary F)
      → build_summary is_file now ws started_at benchmark ≡ ok s
      → IsBuilt ws s
  unfolding build_summary
  build_summary-IsBuilt now ws started_at s h =
      let (collected, e₁, h) = >>=-eq-ok (collect_runs is_file benchmark ws) _ h in
      let (_, _, h) = >>=-eq-ok (map_result harness_version_of collected.1) _ h in
      let (keyed, e₂, h) = >>=-eq-ok (map_result keyed_run collected.1) _ h in
      let (_, e₃, h) = >>=-eq-ok (model_rows keyed) _ h in
      let (_, e₄, h) = >>=-eq-ok (scenario_rows keyed) _ h in
      let (_, _, h) = >>=-eq-ok (categories is_evaluated collected.1) _ h in
      let (_, _, h) = >>=-eq-ok (categories is_unavailable_run collected.1) _ h in
      let (_, e₅, h) = >>=-eq-ok (summarize_runs collected.1) _ h in
      subst (IsBuilt ws) (ok-injective h) (record {
        collected = e₁;
        keyed = keyed;
        keys = e₂;
        models = e₃;
        scenarios = e₄;
        totals = e₅;
        expected = refl;
        received = refl;
      })
