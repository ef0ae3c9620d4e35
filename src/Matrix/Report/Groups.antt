-- ===== src/Matrix/Report/Groups.antt =====
-- The groups of `build_summary` of run_host_matrix.py against its totals.
use replaybook.Prelude.{
  ℕ, ◌≡◌, refl, ap, sym, ◌∙◌, Bool, true, ◌&&◌, String, List, [], ◌∷◌, map, filter, count_if, arith,
  sum, count_if-all,
}
use replaybook.Prelude.Eq.{Eq, string_eq, option_eq, pair_eq}
use replaybook.Prelude.Int.{int_eq}
use replaybook.Prelude.Text.{FilePath}
use replaybook.Prelude.Order.{sort, sum-sort}
use replaybook.Prelude.Dict.{Dict}
use replaybook.Prelude.Groups.{group_into, count_groups, count_groups-group_into}
use replaybook.Prelude.Result.{ok, >>=-eq-ok, map_result, ok-injective}
use replaybook.Json.{Fields}
use replaybook.Json.Floats.{Floats}
use replaybook.Matrix.Results.{WorkerResult}
use replaybook.Matrix.Summary.{Totals, is_evaluated, summarize_runs}
use replaybook.Matrix.Summary.Counts.{has_passed, summarize_runs-IsCount}
use replaybook.Matrix.Report.{
  Summary, Keyed, model_key_leb, scenario_key_leb, keyed_run, keys_of, group_row, model_rows,
  scenario_rows, build_summary,
}
use replaybook.Matrix.Report.Parts.{build_summary-IsBuilt}

module _ {F : Type 0} ⦃fl : Floats F⦄ where
  abbrev runs_of : List (Keyed F) → List (Fields F)
  runs_of keyed = map (λ k. k.1) keyed

  -- The tests behind three of the counts.
  abbrev passes : Fields F → Bool
  passes run = is_evaluated run && has_passed run

  count_if-filter :
      (runs : List (Fields F))
      → count_if has_passed (filter is_evaluated runs) ≡ count_if passes runs
  count_if-filter [] = refl
  count_if-filter (run ∷ runs) = ground (arith, count_if-filter runs)

  count_if-runs_of :
      (p : Fields F → Bool) (keyed : List (Keyed F))
      → count_if p (runs_of keyed) ≡ count_if (λ k. p k.1) keyed
  count_if-runs_of p [] = refl
  count_if-runs_of p (k ∷ keyed) = omega (arith, count_if-runs_of p keyed)

  keyed-runs :
      (runs : List (Fields F)) (keyed : List (Keyed F))
      → map_result keyed_run runs ≡ ok keyed
      → runs_of keyed ≡ runs
  keyed-runs [] keyed h = ap runs_of (sym (ok-injective h))
  keyed-runs (run ∷ runs) keyed h =
      let (k, e, h₁) = >>=-eq-ok (keyed_run run) _ h in
      let (ks, e', h₂) = >>=-eq-ok (map_result keyed_run runs) _ h₁ in
      let (keys, _, h₃) = >>=-eq-ok (keys_of run) _ e in
      ap runs_of (sym (ok-injective h₂))
      ∙ ap (λ r. r.1 ∷ runs_of ks) (sym (ok-injective h₃))
      ∙ ap (λ rs. run ∷ rs) (keyed-runs runs ks e')

  -- The rows of a grouping add up to these numbers.
  pub record Adds {K : Type 0} (rows : List (K × Totals F)) (t : Totals F) : Type 0 where
    pub trials : sum (map (λ r. r.1.trials) rows) ≡ t.trials
    pub evaluated : sum (map (λ r. r.1.evaluated) rows) ≡ t.evaluated
    pub passed : sum (map (λ r. r.1.passed) rows) ≡ t.passed

  module _ (n : Totals F → ℕ) (p : Fields F → Bool)
      (law : (runs : List (Fields F)) (t : Totals F)
        → summarize_runs runs ≡ ok t
        → n t ≡ count_if p runs) where
    -- The sum of a count over the rows of a grouping.
    sum-rows :
        {K : Type 0} (groups : Dict K (List (Keyed F))) (rows : List (K × Totals F))
        → map_result group_row groups ≡ ok rows
        → sum (map (λ r. n r.1) rows) ≡ sum (map (λ g. count_if (λ k. p k.1) g.1) groups)
    sum-rows [] rows h = ap (λ rs. sum (map (λ r. n r.1) rs)) (sym (ok-injective h))
    sum-rows ((key, group) ∷ groups) rows h =
        let (row, e, h₁) = >>=-eq-ok (group_row (key, group)) _ h in
        let (rest, e', h₂) = >>=-eq-ok (map_result group_row groups) _ h₁ in
        let (t, e'', h₃) = >>=-eq-ok (summarize_runs (runs_of group)) _ e in
        let head : n row.1 ≡ count_if (λ k. p k.1) group =
          ap (λ r. n r.1) (sym (ok-injective h₃))
          ∙ law (runs_of group) t e''
          ∙ count_if-runs_of p group in
        ap (λ rs. sum (map (λ r. n r.1) rs)) (sym (ok-injective h₂))
        ∙ omega (arith, head, sum-rows groups rest e')

    sum-grouping :
        {K : Type 0} ⦃e : Eq K⦄ (le : K × List (Keyed F) → K × List (Keyed F) → Bool)
        (key : Keyed F → K) (runs : List (Fields F)) (keyed : List (Keyed F))
        (rows : List (K × Totals F)) (t : Totals F)
        → map_result keyed_run runs ≡ ok keyed
        → map_result group_row (sort le (group_into key keyed [])) ≡ ok rows
        → summarize_runs runs ≡ ok t
        → sum (map (λ r. n r.1) rows) ≡ n t
    sum-grouping le key runs keyed rows t hk hr ht =
        let grouped : count_groups (λ k. p k.1) (group_into key keyed [])
            ≡ count_if (λ k. p k.1) keyed =
          omega (arith, count_groups-group_into (λ k. p k.1) key keyed []) in
        sum-rows (sort le (group_into key keyed [])) rows hr
        ∙ sum-sort le (λ g. count_if (λ k. p k.1) g.1) (group_into key keyed [])
        ∙ grouped
        ∙ sym (count_if-runs_of p keyed)
        ∙ ap (count_if p) (keyed-runs runs keyed hk)
        ∙ sym (law runs t ht)

  module _ {K : Type 0} ⦃e : Eq K⦄ (le : K × List (Keyed F) → K × List (Keyed F) → Bool)
      (key : Keyed F → K) where
    grouping-Adds :
        (runs : List (Fields F)) (keyed : List (Keyed F)) (rows : List (K × Totals F))
        (t : Totals F)
        → map_result keyed_run runs ≡ ok keyed
        → map_result group_row (sort le (group_into key keyed [])) ≡ ok rows
        → summarize_runs runs ≡ ok t
        → Adds rows t
    grouping-Adds runs keyed rows t hk hr ht = record {
      trials =
          sum-grouping (λ t. t.trials) (λ _. true)
            (λ runs t h. (summarize_runs-IsCount runs t h).trials ∙ sym (count_if-all runs)) le key
            runs keyed rows t hk hr ht;
      evaluated =
          sum-grouping (λ t. t.evaluated) is_evaluated
            (λ runs t h. (summarize_runs-IsCount runs t h).evaluated) le key runs keyed rows t hk hr
            ht;
      passed =
          sum-grouping (λ t. t.passed) passes
            (λ runs t h. (summarize_runs-IsCount runs t h).passed ∙ count_if-filter runs) le key
            runs keyed rows t hk hr ht;
    }

  -- The rows by model, and those by scenario and model, of a summary that is built add up to its
  -- totals in trials, evaluated and passed trials: no run is lost or counted in two groups.
  pub build_summary-Adds :
      (is_file : FilePath → Bool) (now : String) (ws : List (WorkerResult F)) (started_at : String)
      (benchmark : Fields F) (s : Summary F)
      → build_summary is_file now ws started_at benchmark ≡ ok s
      → Adds s.by_model s.totals × Adds s.by_scenario_model s.totals
  unfolding model_rows scenario_rows
  build_summary-Adds is_file now ws started_at benchmark s h =
      let b = build_summary-IsBuilt is_file benchmark now ws started_at s h in
      (
        grouping-Adds (λ a b. model_key_leb a.0 b.0) (λ k. k.0.0) s.runs b.keyed s.by_model s.totals
            b.keys b.models b.totals,
        grouping-Adds (λ a b. scenario_key_leb a.0 b.0) (λ k. k.0.1) s.runs b.keyed
            s.by_scenario_model s.totals b.keys b.scenarios b.totals,
      )
