-- ===== src/Matrix/Results/Collected.antt =====
-- What `completed_worker` and the end of `run_worker` in run_host_matrix.py let through.
use replaybook.Prelude.{
  String, ◌≡◌, refl, inl, inr, true, Option, none, some, [], ◌∷◌, ◌++◌, arith, Bool-cases,
}
use mathlib.Core.Path.{subst}
use replaybook.Prelude.Int.{ℤ}
use replaybook.Prelude.Eq.{string_eq}
use replaybook.Prelude.Result.{ok, ok-injective, >>=-eq-ok}
use replaybook.Json.{obj, Fields}
use replaybook.Json.Floats.{Floats}
use replaybook.Matrix.Jobs.{Job}
use replaybook.Matrix.Results.{
  Reading, document, WorkerResult, load_result, same_identity, saved_exit_code, keep_saved, settle,
  completed_worker, collect_worker,
}
use replaybook.Matrix.Results.Validity.{IsScorable}
use replaybook.Matrix.Results.Loaded.{IsLoaded, scorable, refused, load_result-IsLoaded}

module _ {F : Type 0} ⦃fl : Floats F⦄ where
  -- A worker result that can be summarised: its result, where it has one, was scorable and carries
  -- the identity of its job; where it has none there is an error text.
  pub data IsCollected (job : Job) (provider : Option String) (w : WorkerResult F) : Type 0 where
    kept :
        (result : Fields F)
        → w.result ≡ some result
        → IsScorable result
        → same_identity job provider result ≡ true
        → IsCollected job provider w
    failed : (text : String) → w.result ≡ none → w.error ≡ some text → IsCollected job provider w

  module _ (job : Job) (provider : Option String) (exit_code : ℤ) where
    settle_job :
        (loaded : Option (Fields F) × Option String) {w : WorkerResult F}
        → settle job provider exit_code loaded ≡ w
        → w.job ≡ job
    unfolding settle
    settle_job (none, error) h = ground arith
    settle_job (some result, error) h = ground arith

    settle_exit_code :
        (loaded : Option (Fields F) × Option String) {w : WorkerResult F}
        → settle job provider exit_code loaded ≡ w
        → w.exit_code ≡ exit_code
    unfolding settle
    settle_exit_code (none, error) h = ground arith
    settle_exit_code (some result, error) h = ground arith

  settle-IsCollected :
      (job : Job) (provider : Option String) (exit_code : ℤ) {reading : Reading F}
      {loaded : Option (Fields F) × Option String}
      → IsLoaded reading loaded
      → IsCollected job provider (settle job provider exit_code loaded)
  unfolding settle
  settle-IsCollected job provider exit_code (scorable result e good) =
      elim (Bool-cases (same_identity job provider result)) [
        | inl same ↦ rw same (kept result refl good same)
        | inr other ↦ rw other (failed _ refl refl)
      ]
  settle-IsCollected job provider exit_code (refused text) = failed text refl refl

  -- What `run_worker` returns once its process has ended: the job and the exit code that it was
  -- given, and either a result that can be scored and carries the identity of the job, or no result
  -- and an error text.
  pub collect_worker-IsCollected :
      (job : Job) (provider : Option String) (exit_code : ℤ) (reading : Reading F)
      (w : WorkerResult F)
      → collect_worker job provider exit_code reading ≡ ok w
      → (w.job ≡ job) × (w.exit_code ≡ exit_code) × IsCollected job provider w
  unfolding collect_worker
  collect_worker-IsCollected job provider exit_code reading w h =
      let (loaded, e, k) =
        >>=-eq-ok (load_result (job.output_dir ++ "result.json" ∷ []) reading) _ h in
      let same = ok-injective k in
      (
        settle_job job provider exit_code loaded same,
        settle_exit_code job provider exit_code loaded same,
        subst (IsCollected job provider) same
            (settle-IsCollected job provider exit_code (load_result-IsLoaded _ reading loaded e)),
      )

  keep_saved-IsCollected :
      (job : Job) (provider : Option String) {reading : Reading F}
      {loaded : Option (Fields F) × Option String} {w : WorkerResult F}
      → IsLoaded reading loaded
      → keep_saved job provider loaded ≡ some w
      → (w.job ≡ job)
        × ((result : Fields F) × (reading ≡ document (obj result))
            × (w.result ≡ some result)
            × IsScorable result
            × (same_identity job provider result ≡ true)
            × (w.exit_code ≡ saved_exit_code result))
  unfolding keep_saved
  keep_saved-IsCollected job provider {w = w} (scorable result e good) h =
      elim (Bool-cases (same_identity job provider result)) [
        | inl same ↦
            let (a, b, c) = kept_fields (rw same at h) in (a, (result, e, b, good, same, c))
        | inr other ↦ absurd (cc (rw other at h))
      ]
    where
      kept_fields :
          ◌≡◌ {A = Option (WorkerResult F)}
            (some (record {
              job = job;
              exit_code = saved_exit_code result;
              result = some result;
              error = none;
            }))
            (some w)
          → (w.job ≡ job) × (w.result ≡ some result) × (w.exit_code ≡ saved_exit_code result)
      kept_fields k = (ground arith, ground arith, ground arith)
  keep_saved-IsCollected job provider (refused text) h = absurd (cc)

  -- What a saved trial that counts as completed has.
  pub completed_worker-IsCollected :
      (job : Job) (provider : Option String) (reading : Reading F) (w : WorkerResult F)
      → completed_worker job provider reading ≡ ok (some w)
      → (w.job ≡ job)
        × ((result : Fields F) × (reading ≡ document (obj result))
            × (w.result ≡ some result)
            × IsScorable result
            × (same_identity job provider result ≡ true)
            × (w.exit_code ≡ saved_exit_code result))
  unfolding completed_worker
  completed_worker-IsCollected job provider reading w h =
      let (loaded, e, k) =
        >>=-eq-ok (load_result (job.output_dir ++ "result.json" ∷ []) reading) _ h in
      keep_saved-IsCollected job provider (load_result-IsLoaded _ reading loaded e) (ok-injective k)
