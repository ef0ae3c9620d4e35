-- ===== src/Tests/Results.antt =====
-- Result files of a trial.
use replaybook.Prelude.{◌≡◌, ◌↔◌, refl, inl, inr, none, some, [], ◌∷◌}
use replaybook.Prelude.Int.{pos}
use replaybook.Prelude.Result.{ok}
use replaybook.Json.{obj, Fields}
use replaybook.Matrix.Results.{
  absent, document, WorkerResult, load_result, completed_worker, collect_worker, same_identity,
}
use replaybook.Matrix.Results.Validity.{IsScorable}
use replaybook.Matrix.Results.Loaded.{IsLoaded, load_result-IsLoaded, load_result-accepts}
use replaybook.Matrix.Results.Collected.{IsCollected, collect_worker-IsCollected}
use replaybook.Matrix.Results.Completed.{IsCompleted, completed_worker_iff}
use replaybook.Json.Access.{get, get_or}
use replaybook.Tests.Data.{nat_floats, job_a, job_b, result_a, reading_a, worker_a, worker_b}

loaded_a : load_result ("result.json" ∷ []) reading_a ≡ ok (some result_a, none)
unfolding load_result replaybook.Json.Access.has_key replaybook.Matrix.Results.valid_fields
    replaybook.Matrix.Results.valid_values get get_or
loaded_a = refl

load_result-IsLoaded_example : IsLoaded reading_a (some result_a, none)
load_result-IsLoaded_example =
    load_result-IsLoaded ("result.json" ∷ []) reading_a (some result_a, none) loaded_a

result_a-IsScorable : IsScorable result_a
unfolding get get_or
result_a-IsScorable = record {
  harness_version = (pos 23, refl, refl);
  scenario = ("013", refl);
  scenario_version = (pos 2, refl, refl);
  model = ("a", refl);
  reward = inr refl;
  status = inl refl;
}

load_result-accepts_example :
    load_result ("result.json" ∷ []) (document (obj result_a)) ≡ ok (some result_a, none)
load_result-accepts_example = load_result-accepts ("result.json" ∷ []) result_a result_a-IsScorable

completed_a : completed_worker job_a (some "p") reading_a ≡ ok (some worker_a)
unfolding completed_worker load_result same_identity replaybook.Json.Access.has_key
    replaybook.Matrix.Results.valid_fields replaybook.Matrix.Results.valid_values get get_or
completed_a = refl

completed_worker_iff_example :
    (completed_worker job_a (some "p") reading_a ≡ ok (some worker_a))
    ↔ IsCompleted job_a (some "p") reading_a worker_a
completed_worker_iff_example = completed_worker_iff job_a (some "p") reading_a worker_a

-- One side holds at this input.
worker_a-IsCompleted : IsCompleted job_a (some "p") reading_a worker_a
worker_a-IsCompleted = (completed_worker_iff job_a (some "p") reading_a worker_a).0 completed_a

collected_b : collect_worker job_b (some "p") (pos 137) absent ≡ ok worker_b
unfolding collect_worker load_result
collected_b = refl

collect_worker-IsCollected_example :
    (worker_b.job ≡ job_b) × (worker_b.exit_code ≡ pos 137) × IsCollected job_b (some "p") worker_b
collect_worker-IsCollected_example =
    collect_worker-IsCollected job_b (some "p") (pos 137) absent worker_b collected_b
