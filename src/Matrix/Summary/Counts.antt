-- ===== src/Matrix/Summary/Counts.antt =====
-- The counts that `summarize_runs` of run_host_matrix.py returns.
use replaybook.Prelude.{
  ℕ, ◌+◌, ◌-◌, ◌≤◌, ◌≡◌, refl, ap, subst, sym, Bool, false, List, [], ◌∷◌, filter, length, count_if,
  length-filter, count_if-le-length, arith, if◌then◌else◌,
}
use replaybook.Prelude.Result.{Result, ok, err, >>=-eq-ok, map_result, ok-injective}
use replaybook.Json.{Fields}
use replaybook.Json.Floats.{Floats}
use replaybook.Matrix.Summary.{
  Totals, is_evaluated, is_passed, dicts_at, floats_at, count_at, duration_at, first_change, int_at,
  summarize_runs,
}

abbrev pub is_ok_true : Result Bool → Bool
is_ok_true (ok b) = b
is_ok_true (err _) = false

module _ {F : Type 0} ⦃fl : Floats F⦄ where
  -- The reward of a run reads as 1.
  abbrev pub has_passed : Fields F → Bool
  has_passed run = is_ok_true (is_passed run)

  pass-count :
      (run : Fields F) (b : Bool) (m n : ℕ)
      → is_passed run ≡ ok b
      → m ≡ n
      → (if b then 1 else 0) + m ≡ (if has_passed run then 1 else 0) + n
  pass-count run b m n e h = rw (ap is_ok_true e, h) refl

  passes-count :
      (runs : List (Fields F)) (passes : List Bool)
      → map_result is_passed runs ≡ ok passes
      → count_if (λ b. b) passes ≡ count_if has_passed runs
  passes-count [] passes h = ap (count_if (λ b. b)) (sym (ok-injective h))
  passes-count (run ∷ runs) passes h =
      let (b, e, h₁) = >>=-eq-ok (is_passed run) _ h in
      let (bs, k, h₂) = >>=-eq-ok (map_result is_passed runs) _ h₁ in
      subst (λ bs. count_if (λ b. b) bs ≡ count_if has_passed (run ∷ runs)) (ok-injective h₂)
        (pass-count run b _ _ e (passes-count runs bs k))

  -- How the counts of a summary stand to the runs.
  pub record IsCount (runs : List (Fields F)) (t : Totals F) : Type 0 where
    pub trials : t.trials ≡ length runs
    pub evaluated : t.evaluated ≡ count_if is_evaluated runs
    pub passed : t.passed ≡ count_if has_passed (filter is_evaluated runs)
    pub available : t.evaluated + t.unavailable ≡ t.trials
    pub scored : t.passed + t.failed ≡ t.evaluated
    pub repaired : t.durable_repairs_after_timeout ≤ t.evaluated

  counts :
      (runs : List (Fields F)) (passes : List Bool)
      → map_result is_passed (filter is_evaluated runs) ≡ ok passes
      → (length (filter is_evaluated runs) + (length runs - length (filter is_evaluated runs))
          ≡ length runs)
        × (count_if (λ b. b) passes + (length (filter is_evaluated runs) - count_if (λ b. b) passes)
            ≡ length (filter is_evaluated runs))
  counts runs passes h = (
    omega (arith, length-filter is_evaluated runs, count_if-le-length is_evaluated runs),
    omega (
      arith,
      passes-count (filter is_evaluated runs) passes h,
      count_if-le-length has_passed (filter is_evaluated runs),
    ),
  )

  -- A summary that is returned counts all its trials: the evaluated ones and the unavailable ones
  -- make up the trials, and the passed ones, those evaluated runs whose reward reads as 1, and the
  -- failed ones make up the evaluated trials.
  pub summarize_runs-IsCount :
      (runs : List (Fields F)) (t : Totals F) → summarize_runs runs ≡ ok t → IsCount runs t
  unfolding summarize_runs
  summarize_runs-IsCount runs t h =
      let evaluated = filter is_evaluated runs in
      let usages = dicts_at "usage" runs in
      let recordings = dicts_at "recording" runs in
      let (_, _, h) = >>=-eq-ok (floats_at "agent_duration_seconds" evaluated) _ h in
      let (_, _, h) = >>=-eq-ok (floats_at "cost_usd" usages) _ h in
      let (_, _, h) = >>=-eq-ok (map_result (count_at "model_rounds") recordings) _ h in
      let (_, _, h) = >>=-eq-ok (map_result (duration_at "model_rounds") recordings) _ h in
      let (_, _, h) = >>=-eq-ok (map_result (count_at "tools") recordings) _ h in
      let (_, _, h) = >>=-eq-ok (map_result (duration_at "tools") recordings) _ h in
      let (_, _, h) = >>=-eq-ok (map_result first_change recordings) _ h in
      let (passes, e, h) = >>=-eq-ok (map_result is_passed evaluated) _ h in
      let (_, _, h) = >>=-eq-ok (map_result (int_at "input_tokens") usages) _ h in
      let (_, _, h) = >>=-eq-ok (map_result (int_at "output_tokens") usages) _ h in
      let (_, _, h) = >>=-eq-ok (map_result (int_at "cache_read_tokens") usages) _ h in
      let (_, _, h) = >>=-eq-ok (map_result (int_at "cache_creation_tokens") usages) _ h in
      let (available, scored) = counts runs passes e in
      subst (IsCount runs) (ok-injective h) (record {
        trials = refl;
        evaluated = length-filter is_evaluated runs;
        passed = passes-count evaluated passes e;
        available = available;
        scored = scored;
        repaired = count_if-le-length _ evaluated;
      })
