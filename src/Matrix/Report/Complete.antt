-- ===== src/Matrix/Report/Complete.antt =====
-- What `build_summary` of run_host_matrix.py counts and which summaries `summary_exit_status` passes.
use replaybook.Prelude.{
  ℕ, ◌+◌, ◌≡◌, ◌↔◌, inl, inr, String, refl, ap, subst, sym, ◌∙◌, Bool, true, false, not, none, some,
  List, [], ◌∷◌, is_nil, length, count_if, count_if-le-length, nat_beq, arith, if◌then◌else◌, All,
  Bool-cases, Option-cases,
}
use replaybook.Prelude.Eq.{string_eq, option_eq, pair_eq}
use replaybook.Prelude.Int.{int_eq}
use replaybook.Prelude.Text.{FilePath}
use replaybook.Prelude.Result.{ok, >>=-eq-ok, ok-injective}
use replaybook.Json.{Value, str, Fields}
use replaybook.Json.Floats.{Floats}
use replaybook.Json.Access.{find, find-put, get_or, or_value, has_key, put, eq_str}
use replaybook.Matrix.Results.{WorkerResult}
use replaybook.Matrix.Summary.{is_evaluated}
use replaybook.Matrix.Summary.Counts.{IsCount, summarize_runs-IsCount}
use replaybook.Matrix.Report.{
  Summary, InfrastructureError, updated_run, set_default, prepared_run, benchmark_provider,
  collect_runs, build_summary, summary_exit_status,
}
use replaybook.Matrix.Report.Parts.{build_summary-IsBuilt}

module _ {F : Type 0} where
  -- The worker has a result, and that says that the trial was evaluated.
  abbrev pub is_evaluated_worker : WorkerResult F → Bool
  is_evaluated_worker w = elim w.result [ none ↦ false | some result ↦ is_evaluated result ]

  -- The test reads the status alone.
  status-is_evaluated :
      (run run' : Fields F)
      → find "trial_status" run ≡ find "trial_status" run'
      → is_evaluated run ≡ is_evaluated run'
  unfolding get_or
  status-is_evaluated run run' h = ap (λ o. eq_str (or_value (str "evaluated") o) "evaluated") h

  updated_run-is_evaluated :
      (is_file : FilePath → Bool) (w : WorkerResult F) (result : Fields F)
      → is_evaluated (updated_run is_file w result) ≡ is_evaluated result
  unfolding updated_run
  updated_run-is_evaluated is_file w result =
      status-is_evaluated (updated_run is_file w result) result
        (rw (find-put, find-put, find-put, find-put, find-put, find-put) refl)

  set_default-is_evaluated :
      (v : Value F) (run : Fields F)
      → is_evaluated (set_default "provider" v run) ≡ is_evaluated run
  set_default-is_evaluated v run = elim (Bool-cases (has_key "provider" run)) [
    | inl there ↦ rw there refl
    | inr new ↦
        rw new (
          status-is_evaluated (put "provider" v run) run (find-put "provider" "trial_status" v run))
  ]

module _ {F : Type 0} ⦃fl : Floats F⦄ (is_file : FilePath → Bool) (benchmark : Fields F) where
  -- The runs and the errors that the first loop collects.
  record IsCollection (ws : List (WorkerResult F))
      (collected : List InfrastructureError × List (Fields F)) : Type 0 where
    complete : length collected.1 + length collected.0 ≡ length ws
    evaluated : count_if is_evaluated collected.1 ≡ count_if is_evaluated_worker ws

  prepared_run-is_evaluated :
      (w : WorkerResult F) (result run : Fields F)
      → prepared_run is_file benchmark w result ≡ ok run
      → is_evaluated run ≡ is_evaluated result
  prepared_run-is_evaluated w result run h =
      let (provider, _, k) = >>=-eq-ok (benchmark_provider benchmark) _ h in
      let before = updated_run is_file w result in
      ap is_evaluated (sym (ok-injective k))
      ∙ set_default-is_evaluated provider before
      ∙ updated_run-is_evaluated is_file w result

  collect_runs-IsCollection :
      (ws : List (WorkerResult F)) (collected : List InfrastructureError × List (Fields F))
      → collect_runs is_file benchmark ws ≡ ok collected
      → IsCollection ws collected
  unfolding collect_runs
  collect_runs-IsCollection [] collected h =
      subst (IsCollection []) (ok-injective h) (record { complete = refl; evaluated = refl })
  collect_runs-IsCollection (w ∷ ws) collected h = elim (Option-cases w.result) [
    | inl missing ↦
        let (rest, e, k) = >>=-eq-ok (collect_runs is_file benchmark ws) _ (rw missing at h) in
        let r = collect_runs-IsCollection ws rest e in
        subst (IsCollection (w ∷ ws)) (ok-injective k) (record {
          complete = omega (arith, r.complete);
          evaluated = rw missing (omega (arith, r.evaluated));
        })
    | inr (result, present) ↦
        let (run, e, k) = >>=-eq-ok (prepared_run is_file benchmark w result) _ (rw present at h) in
        let (rest, e', k') = >>=-eq-ok (collect_runs is_file benchmark ws) _ k in
        let r = collect_runs-IsCollection ws rest e' in
        let same = prepared_run-is_evaluated w result run e in
        subst (IsCollection (w ∷ ws)) (ok-injective k') (record {
          complete = omega (arith, r.complete);
          evaluated = rw (present, same) (omega (arith, r.evaluated));
        })
  ]

  -- How a summary stands to the workers that it is made of.
  pub record IsComplete (ws : List (WorkerResult F)) (s : Summary F) : Type 0 where
    pub expected : s.expected_trials ≡ length ws
    pub received : s.received_results ≡ length s.runs
    pub all : s.received_results + length s.infrastructure_errors ≡ s.expected_trials
    pub totals : IsCount s.runs s.totals
    pub evaluated : s.totals.evaluated ≡ count_if is_evaluated_worker ws

  -- A summary that is built accounts for each worker: it has a run or an infrastructure error for
  -- each of them, the totals count the runs, and the evaluated trials are the workers whose result
  -- says so.
  pub build_summary-IsComplete :
      (now : String) (ws : List (WorkerResult F)) (started_at : String) (s : Summary F)
      → build_summary is_file now ws started_at benchmark ≡ ok s
      → IsComplete ws s
  build_summary-IsComplete now ws started_at s h =
      let b = build_summary-IsBuilt is_file benchmark now ws started_at s h in
      let c = collect_runs-IsCollection ws (s.infrastructure_errors, s.runs) b.collected in
      let t = summarize_runs-IsCount s.runs s.totals b.totals in
      record {
        expected = b.expected;
        received = b.received;
        all = omega (arith, b.received, c.complete, b.expected);
        totals = t;
        evaluated = t.evaluated ∙ c.evaluated;
      }

  All-evaluated :
      (ws : List (WorkerResult F))
      → (count_if is_evaluated_worker ws ≡ length ws) ↔ All (λ w. is_evaluated_worker w ≡ true) ws
  All-evaluated [] = ((λ h. tt), (λ h. refl))
  All-evaluated (w ∷ ws) =
      let rest = All-evaluated ws in
      let most = count_if-le-length is_evaluated_worker ws in
      elim (Bool-cases (is_evaluated_worker w)) [
        | inl e ↦ ((λ h. (e, rest.0 (ground arith))), (λ h. ground (arith, rest.1 h.1)))
        | inr e ↦ ((λ h. absurd (ground arith)), (λ h. absurd (cc (h.0))))
      ]

  status-zero :
      (errors : List InfrastructureError) (unavailable : ℕ)
      → (◌≡◌ {A = ℕ} (if not (is_nil errors) then 1 else if nat_beq unavailable 0 then 0 else 1) 0)
        ↔ ((length errors ≡ 0) × (unavailable ≡ 0))
  status-zero [] u = ((λ h. (refl, ground arith)), (λ h. ground (arith, h.1)))
  status-zero (e ∷ es) u =
      ((λ h. absurd (omega arith)), (λ h. let (n, _) = h in absurd (omega arith)))

  exit_status :
      (s : Summary F)
      → (summary_exit_status s ≡ 0)
        ↔ ((length s.infrastructure_errors ≡ 0) × (s.totals.unavailable ≡ 0))
  unfolding summary_exit_status
  exit_status s = status-zero s.infrastructure_errors s.totals.unavailable

  -- The matrix ends with exit status 0 exactly when every worker has a result and each of these says
  -- that its trial was evaluated.
  pub summary_exit_status_iff :
      (now : String) (ws : List (WorkerResult F)) (started_at : String) (s : Summary F)
      → build_summary is_file now ws started_at benchmark ≡ ok s
      → (summary_exit_status s ≡ 0) ↔ All (λ w. is_evaluated_worker w ≡ true) ws
  summary_exit_status_iff now ws started_at s h =
      let c = build_summary-IsComplete now ws started_at s h in
      let t = c.totals in
      let status = exit_status s in
      let evaluated = All-evaluated ws in
      (
        (λ e.
            let (no_errors, available) = status.0 e in
            evaluated.0 (
              omega (
                arith, no_errors, available, c.expected, c.received, c.all, c.evaluated, t.trials,
                t.available,
              ))),
        (λ a.
            let full = evaluated.1 a in
            status.1 (
              (omega
                  (arith, full, c.expected, c.received, c.all, c.evaluated, t.trials, t.available)),
              (omega
                  (arith, full, c.expected, c.received, c.all, c.evaluated, t.trials, t.available)),
            )),
      )
