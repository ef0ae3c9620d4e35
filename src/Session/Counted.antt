-- ===== src/Session/Counted.antt =====
-- What `see_jobs` counts, against the jobs whose saved results count: for `matrix_report` of
-- benchmark_session.py.
use replaybook.Prelude.{
  ℕ, suc, ◌+◌, ◌≤◌, ◌≡◌, refl, ap, subst, inl, inr, String, Bool, true, false, Option, none, some,
  List, [], ◌∷◌, length, count_if, All, arith, Bool-cases, Option-cases, count_if-le-length,
  if◌then◌else◌,
}
use replaybook.Prelude.Int.{ℤ}
use replaybook.Prelude.Eq.{string_eq}
use replaybook.Prelude.Result.{ok, >>=-eq-ok, ok-injective}
use replaybook.Json.{Fields}
use replaybook.Json.Floats.{Floats}
use replaybook.Matrix.Jobs.{Job}
use replaybook.Matrix.Results.{
  Reading, absent, unreadable, document, WorkerResult, completed_worker,
}
use replaybook.Matrix.Summary.{is_evaluated}
use replaybook.Session.{MatrixDir, Seen, see_job, see_jobs}

counted_true : (b : Bool) (n k : ℕ) → b ≡ true → (if b then 1 else 0) + n ≡ suc k → n ≡ k
counted_true b n k h e = ground arith

true_counted : (b : Bool) (n k : ℕ) → b ≡ true → n ≡ k → (if b then 1 else 0) + n ≡ suc k
true_counted b n k h e = ground arith

counted_false : (b : Bool) (n k : ℕ) → b ≡ false → n ≤ k → (if b then 1 else 0) + n ≡ suc k → ⊥
counted_false b n k h l e = ground arith

module _ {F : Type 0} ⦃fl : Floats F⦄ where
  -- The saved result of the job counts, and says that the trial was evaluated.
  pub record IsEvaluated (m : MatrixDir F) (provider : Option String) (job : Job) : Type 0 where
    pub worker : WorkerResult F
    pub run : Fields F
    pub completed : completed_worker job provider (m.saved job) ≡ ok (some worker)
    pub result : worker.result ≡ some run
    pub evaluated : is_evaluated run ≡ true

  -- What the counts of the runs say of the jobs.
  pub record Counted (m : MatrixDir F) (provider : Option String) (jobs : List Job) (seen : Seen F)
      : Type 0 where
    pub bound : length seen.runs ≤ length jobs
    pub all_evaluated :
        length seen.runs ≡ length jobs
        → count_if is_evaluated seen.runs ≡ length seen.runs
        → All (IsEvaluated m provider) jobs
    pub full :
        All (IsEvaluated m provider) jobs
        → (length seen.runs ≡ length jobs)
          × (count_if is_evaluated seen.runs ≡ length seen.runs)
          × (seen.invalid ≡ [])

  -- The result that counts for a job is the one that `completed_worker` finds.
  same_run :
      (m : MatrixDir F) (provider : Option String) (job : Job) (worker : WorkerResult F)
      (d : IsEvaluated m provider job)
      → completed_worker job provider (m.saved job) ≡ ok (some worker)
      → worker.result ≡ some d.run
  same_run m provider job worker d e =
      let completed = d.completed in
      let result = d.result in
      let same : d.worker ≡ worker = cc in subst (λ w. w.result ≡ some d.run) same result

  no_worker :
      (m : MatrixDir F) (provider : Option String) (job : Job) (d : IsEvaluated m provider job)
      → completed_worker job provider (m.saved job) ≡ ok none
      → ⊥
  no_worker m provider job d e = let completed = d.completed in absurd cc

  more_runs :
      (m : MatrixDir F) (provider : Option String) (job : Job) (jobs : List Job) (rest : Seen F)
      (worker : WorkerResult F) (found : Option (Fields F))
      → Counted m provider jobs rest
      → completed_worker job provider (m.saved job) ≡ ok (some worker)
      → worker.result ≡ found
      → Counted m provider
          (job ∷ jobs)
          (see_job job (some worker) (m.saved job) (m.log_age job) rest)
  unfolding see_job
  more_runs m provider job jobs rest worker none c e found =
      rw (see_job, found)
        (record {
          bound = omega (arith, c.bound);
          all_evaluated = λ h k. absurd (omega (arith, h, c.bound));
          full = λ h. let result = same_run m provider job worker h.0 e in absurd cc;
        })
  more_runs m provider job jobs rest worker (some run) c e found =
      elim (Bool-cases (is_evaluated run)) [
        | inl good ↦
            rw (see_job, found)
              (record {
                bound = omega (arith, c.bound);
                all_evaluated = λ h k. (
                  record {
                    worker = worker;
                    run = run;
                    completed = e;
                    result = found;
                    evaluated = good;
                  },
                  c.all_evaluated (omega (arith, h)) (counted_true _ _ _ good k),
                );
                full = λ h.
                    let (size, counts, none_invalid) = c.full h.1 in
                    (ap suc size, true_counted _ _ _ good counts, none_invalid);
              })
        | inr bad ↦
            rw (see_job, found)
              (record {
                bound = omega (arith, c.bound);
                all_evaluated = λ h k.
                    absurd (counted_false _ _ _ bad (count_if-le-length is_evaluated rest.runs) k);
                full = λ h.
                    let result = same_run m provider job worker h.0 e in
                    let evaluated = h.0.evaluated in let same : h.0.run ≡ run = cc in absurd cc;
              })
      ]

  fewer_runs :
      (m : MatrixDir F) (provider : Option String) (job : Job) (jobs : List Job)
      (rest seen : Seen F)
      → Counted m provider jobs rest
      → completed_worker job provider (m.saved job) ≡ ok none
      → seen.runs ≡ rest.runs
      → Counted m provider (job ∷ jobs) seen
  fewer_runs m provider job jobs rest seen c e same = record {
    bound = rw same (omega (arith, c.bound));
    all_evaluated = λ h k. absurd (omega (arith, ap length same, h, c.bound));
    full = λ h. absurd (no_worker m provider job h.0 e);
  }

  see_job-runs :
      (job : Job) (saved : Reading F) (age : Option ℤ) (rest : Seen F)
      → (see_job job none saved age rest).runs ≡ rest.runs
  unfolding see_job
  see_job-runs job absent none rest = refl
  see_job-runs job absent (some age) rest = refl
  see_job-runs job (unreadable text) age rest = refl
  see_job-runs job (document v) age rest = refl

  pub see_jobs-Counted :
      (m : MatrixDir F) (provider : Option String) (jobs : List Job) (seen : Seen F)
      → see_jobs m provider jobs ≡ ok seen
      → Counted m provider jobs seen
  unfolding see_jobs
  see_jobs-Counted m provider [] seen h =
      subst (Counted m provider []) (ok-injective h)
        (record { bound = omega arith; all_evaluated = λ h k. tt; full = λ h. (refl, refl, refl) })
  see_jobs-Counted m provider (job ∷ jobs) seen h =
      let (worker, e, h) = >>=-eq-ok (completed_worker job provider (m.saved job)) _ h in
      let (rest, k, h) = >>=-eq-ok (see_jobs m provider jobs) _ h in
      let c = see_jobs-Counted m provider jobs rest k in
      subst (Counted m provider (job ∷ jobs)) (ok-injective h) (elim (Option-cases worker) [
        | inl nothing ↦
            let e' = subst (λ w. completed_worker job provider (m.saved job) ≡ ok w) nothing e in
            rw nothing (
              fewer_runs m provider job jobs rest _ c e'
                (see_job-runs job (m.saved job) (m.log_age job) rest))
        | inr (w, found) ↦
            let e' = subst (λ w. completed_worker job provider (m.saved job) ≡ ok w) found e in
            rw found (more_runs m provider job jobs rest w w.result c e' refl)
      ])
