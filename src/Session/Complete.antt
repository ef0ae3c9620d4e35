-- ===== src/Session/Complete.antt =====
-- When `matrix_report` of benchmark_session.py reports a matrix as completed.
use replaybook.Prelude.{
  ℕ, ◌+◌, ◌≡◌, ◌↔◌, refl, sym, ap, ◌∙◌, subst, inl, inr, String, Bool, true, false, some, List,
  length, is_nil, All, arith, Option-cases, if◌then◌else◌,
}
use replaybook.Prelude.Eq.{string_eq}
use replaybook.Prelude.Result.{ok, >>=-eq-ok, ok-injective}
use replaybook.Json.{Value, null, bool, int, float, str, arr, obj, Fields}
use replaybook.Json.Floats.{Floats}
use replaybook.Json.Access.{truthy, eq_str}
use replaybook.Matrix.Jobs.{Job}
use replaybook.Matrix.Results.{Reading, absent, unreadable, document}
use replaybook.Matrix.Resume.{Benchmark}
use replaybook.Matrix.Summary.{Totals, summarize_runs}
use replaybook.Matrix.Summary.Counts.{IsCount, summarize_runs-IsCount}
use replaybook.Session.{
  MatrixDir, Seen, MatrixReport, matrix_jobs, see_jobs, category_counts, errors_of, is_complete,
  report_of, summary_of, matrix_report,
}
use replaybook.Session.Counted.{IsEvaluated, Counted, see_jobs-Counted}

-- Runs that are all evaluated leave none unavailable, and conversely.
evaluated_all :
    (evaluated unavailable trials count size : ℕ)
    → evaluated ≡ count
    → evaluated + unavailable ≡ trials
    → trials ≡ size
    → unavailable ≡ 0
    → count ≡ size
evaluated_all evaluated unavailable trials count size h k l n = omega (arith, h, k, l, n)

none_unavailable :
    (evaluated unavailable trials count size : ℕ)
    → evaluated ≡ count
    → evaluated + unavailable ≡ trials
    → trials ≡ size
    → count ≡ size
    → unavailable ≡ 0
none_unavailable evaluated unavailable trials count size h k l n = omega (arith, h, k, l, n)

module _ {F : Type 0} ⦃fl : Floats F⦄ where
  -- The matrix is complete: benchmark.json describes its jobs, each of these has a result that counts
  -- and says that the trial was evaluated, and summary.json names no infrastructure errors.
  pub record IsComplete (m : MatrixDir F) : Type 0 where
    pub benchmark : Benchmark
    pub read : m.benchmark ≡ ok benchmark
    pub jobs : List Job
    pub described : matrix_jobs m.path benchmark ≡ ok jobs
    pub evaluated : All (IsEvaluated m benchmark.agent_provider) jobs
    pub summary : Fields F
    pub written : m.summary ≡ document (obj summary)
    pub clean : truthy (errors_of summary) ≡ false

  summary-document :
      (reading : Reading F) (summary : Fields F)
      → summary_of false reading ≡ some summary
      → reading ≡ document (obj summary)
  summary-document absent summary h = absurd cc
  summary-document (unreadable text) summary h = absurd cc
  summary-document (document (obj fields)) summary h =
      let same : fields ≡ summary = cc in ap (λ f. document (obj f)) same
  summary-document (document null) summary h = absurd cc
  summary-document (document (bool b)) summary h = absurd cc
  summary-document (document (int z)) summary h = absurd cc
  summary-document (document (float x)) summary h = absurd cc
  summary-document (document (str s)) summary h = absurd cc
  summary-document (document (arr vs)) summary h = absurd cc

  is_complete_iff :
      (jobs : List Job) (seen : Seen F) (totals : Totals F) (errors : Value F)
      → (is_complete jobs seen totals errors ≡ true) ↔ (
          (length seen.runs ≡ length jobs)
          × (totals.unavailable ≡ 0)
          × (truthy errors ≡ false)
          × (is_nil seen.invalid ≡ true))
  unfolding is_complete
  is_complete_iff jobs seen totals errors = (
    (λ h. (ground (arith, h), ground (arith, h), ground (arith, h), ground (arith, h))),
    (λ h. ground (arith, h)),
  )

  -- The facts that a report is made from.
  record Sources (m : MatrixDir F) (b : Benchmark) (jobs : List Job) (seen : Seen F)
      (totals : Totals F) : Type 0 where
    read : m.benchmark ≡ ok b
    described : matrix_jobs m.path b ≡ ok jobs
    counted : Counted m b.agent_provider jobs seen
    summed : IsCount seen.runs totals

  state_test :
      (b : Bool) (state : Value F)
      → state ≡ str (if b then "completed" else "incomplete")
      → eq_str state "completed" ≡ b
  state_test true state h = rw h refl
  state_test false state h = rw h refl

  finish_iff :
      (m : MatrixDir F) (b : Benchmark) (jobs : List Job) (seen : Seen F) (totals : Totals F)
      (summary : Fields F)
      → Sources m b jobs seen totals
      → summary_of false m.summary ≡ some summary
      → (is_complete jobs seen totals (errors_of summary) ≡ true) ↔ IsComplete m
  finish_iff m b jobs seen totals summary s h = (
    (λ k.
        let (size, available, clean, _) =
          (is_complete_iff jobs seen totals (errors_of summary)).0 k in
        record {
          benchmark = b;
          read = s.read;
          jobs = jobs;
          described = s.described;
          evaluated = s.counted.all_evaluated size (
              evaluated_all _ _ _ _ _ s.summed.evaluated s.summed.available s.summed.trials
                available);
          summary = summary;
          written = summary-document m.summary summary h;
          clean = clean;
        }),
    (λ c.
        let same_b : c.benchmark ≡ b = ok-injective (sym c.read ∙ s.read) in
        let same_jobs : c.jobs ≡ jobs =
          ok-injective (sym c.described ∙ ap (matrix_jobs m.path) same_b ∙ s.described) in
        let found : summary_of false m.summary ≡ some c.summary = ap (summary_of false) c.written in
        let same_summary : c.summary ≡ summary = cc in
        let evaluated =
          subst (λ b. All (IsEvaluated m b.agent_provider) jobs) same_b
            (subst (λ js. All (IsEvaluated m c.benchmark.agent_provider) js) same_jobs
              c.evaluated) in
        let (size, counts, none_invalid) = s.counted.full evaluated in
        (is_complete_iff jobs seen totals (errors_of summary)).1 (
          size,
          none_unavailable _ _ _ _ _ s.summed.evaluated s.summed.available s.summed.trials counts,
          subst (λ f. truthy (errors_of f) ≡ false) same_summary c.clean,
          rw none_invalid refl,
        )),
  )

  report-IsComplete :
      (m : MatrixDir F) (b : Benchmark) (jobs : List Job) (seen : Seen F) (totals : Totals F)
      (categories : List (String × ℕ))
      → Sources m b jobs seen totals
      → (r : MatrixReport F)
      → report_of m b jobs seen totals categories (summary_of false m.summary) ≡ r
      → (eq_str r.state "completed" ≡ true) ↔ IsComplete m
  unfolding report_of
  report-IsComplete m b jobs seen totals categories s r h =
      elim (Option-cases (summary_of false m.summary)) [
        | inl nothing ↦
            let state : str "in_progress" ≡ r.state = ap (λ r. r.state) (rw nothing at h) in
            (
              (λ k. absurd (cc (rw (sym state) at k))),
              (λ c.
                  let found : summary_of false m.summary ≡ some c.summary =
                    ap (summary_of false) c.written in
                  absurd cc),
            )
        | inr (summary, found) ↦
            let done = is_complete jobs seen totals (errors_of summary) in
            let state = state_test done r.state (sym (ap (λ r. r.state) (rw found at h))) in
            let (there, back) = finish_iff m b jobs seen totals summary s found in
            ((λ k. there (sym state ∙ k)), (λ c. state ∙ back c))
      ]

  -- A report on a matrix that is not running says `completed` exactly where the matrix is complete.
  pub matrix_report-IsComplete :
      (m : MatrixDir F) (r : MatrixReport F)
      → matrix_report m false ≡ ok r
      → (eq_str r.state "completed" ≡ true) ↔ IsComplete m
  unfolding matrix_report
  matrix_report-IsComplete m r h =
      let (b, read, h) = >>=-eq-ok m.benchmark _ h in
      let (jobs, described, h) = >>=-eq-ok (matrix_jobs m.path b) _ h in
      let (seen, sees, h) = >>=-eq-ok (see_jobs m b.agent_provider jobs) _ h in
      let (totals, sums, h) = >>=-eq-ok (summarize_runs seen.runs) _ h in
      let (categories, _, h) = >>=-eq-ok (category_counts seen.runs) _ h in
      report-IsComplete m b jobs seen totals categories
        (record {
          read = read;
          described = described;
          counted = see_jobs-Counted m b.agent_provider jobs seen sees;
          summed = summarize_runs-IsCount seen.runs totals sums;
        })
        r (ok-injective h)
