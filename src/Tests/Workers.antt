-- ===== src/Tests/Workers.antt =====
-- Runs of the pool over two jobs.
use replaybook.Prelude.{
  ℕ, ◌+◌, ◌*◌, ◌≤◌, ◌≡◌, ◌≢◌, ◌↔◌, ◌⊎◌, refl, none, some, [], ◌∷◌, map, length, All, arith,
}
use replaybook.Prelude.Int.{ℤ}
use replaybook.Matrix.Results.{Reading, WorkerResult}
use replaybook.Matrix.Results.Collected.{IsCollected}
use replaybook.Matrix.Workers.{start, exit, launch, step, run, gather}
use replaybook.Matrix.Workers.Bounds.{
  count_running, count_waiting, count_finished, run-le-concurrency,
}
use replaybook.Matrix.Workers.Outcome.{run_progress, run_ends}
use replaybook.Matrix.Workers.Returns.{gather-jobs}
use replaybook.Tests.Data.{
  nat_floats, two_jobs, two_events, two_done, one_running, worker_a, worker_b,
}

two_run : run (some "p") two_events (launch 2 two_jobs) ≡ some two_done
unfolding run step launch replaybook.Matrix.Results.collect_worker
    replaybook.Matrix.Results.load_result replaybook.Json.Access.has_key
    replaybook.Matrix.Results.valid_fields replaybook.Matrix.Results.valid_values
    replaybook.Json.Access.get replaybook.Json.Access.get_or replaybook.Matrix.Results.same_identity
two_run = refl

one_run : run (some "p") (start 0 ∷ []) (launch 1 two_jobs) ≡ some one_running
unfolding run step launch
one_run = refl

gathered : gather two_done.tasks ≡ some (worker_a ∷ worker_b ∷ [])
unfolding gather
gathered = refl

run-le-concurrency_example :
    (count_running one_running.tasks ≤ 1)
    × (one_running.permits + count_running one_running.tasks ≡ 1)
    × (one_running.progress.started ≤ length two_jobs)
    × (one_running.progress.completed ≡ count_finished one_running.tasks)
    × (one_running.progress.completed + count_running one_running.tasks
        ≤ one_running.progress.started)
run-le-concurrency_example =
    run-le-concurrency (some "p") 1 two_jobs (start 0 ∷ []) one_running one_run

run_progress_example :
    ((i : ℕ) × ((code : ℤ) (reading : Reading ℕ)
        → step (some "p") (exit i code reading) one_running ≢ none))
    ⊎ ((i : ℕ) × (step (some "p") (start i) one_running ≢ none))
run_progress_example =
    run_progress (some "p") 1 two_jobs (start 0 ∷ []) one_running (omega arith) one_run
      (omega arith)

run_ends_example :
    (length two_events ≤ 2 * length two_jobs)
    × ((length two_events ≡ 2 * length two_jobs)
        ↔ (count_waiting two_done.tasks + count_running two_done.tasks ≡ 0))
run_ends_example =
    run_ends (some "p") 2 two_jobs two_events two_done (refl, (refl, (refl, (refl, tt)))) two_run

gather-jobs_example :
    (map (λ w. w.job) (worker_a ∷ worker_b ∷ []) ≡ two_jobs)
    × All (λ w. IsCollected w.job (some "p") w) (worker_a ∷ worker_b ∷ [])
gather-jobs_example =
    gather-jobs (some "p") 2 two_jobs two_events two_done (worker_a ∷ worker_b ∷ []) two_run
      gathered
