-- ===== src/Matrix/Resume/Partition.antt =====
-- How `build_resume_plan` of run_host_matrix.py splits the jobs of a matrix.
use replaybook.Prelude.{
  ◌≡◌, sym, subst, ◌⊎◌, String, Bool, true, false, ◌&&◌, Option, none, some, List, map, All,
}
use replaybook.Prelude.Interleave.{Interleave}
use replaybook.Prelude.Result.{ok}
use replaybook.Json.{Fields, obj}
use replaybook.Json.Floats.{Floats}
use replaybook.Matrix.Jobs.{Job, build_jobs}
use replaybook.Matrix.Results.{Reading, document, WorkerResult, completed_worker, same_identity}
use replaybook.Matrix.Results.Validity.{IsScorable}
use replaybook.Matrix.Results.Collected.{completed_worker-IsCollected}
use replaybook.Matrix.Resume.{
  Disk, ResumePlan, Triage, is_unavailable, saved_version, same_version, expected_version,
  resume_spec,
}

module _ {F : Type 0} ⦃fl : Floats F⦄ (provider : Option String) (retry : Bool)
    (saved : Job → Reading F) where
  -- A recovered trial: the saved file of its job holds a result that can be scored and carries the
  -- identity of the job, and the trial is not one that is to be retried.
  pub record IsRecovered (w : WorkerResult F) : Type 0 where
    pub result : Fields F
    pub stands : saved w.job ≡ document (obj result)
    pub holds : w.result ≡ some result
    pub scorable : IsScorable result
    pub same : same_identity w.job provider result ≡ true
    pub kept : (retry && is_unavailable w) ≡ false

  -- A pending trial: nothing usable is saved, or a retry of unavailable trials is asked for and the
  -- saved one is unavailable.
  abbrev pub IsPending : Job → Type 0
  IsPending job =
      (completed_worker job provider (saved job) ≡ ok none)
      ⊎ ((w : WorkerResult F) × (completed_worker job provider (saved job) ≡ ok (some w))
          × ((retry && is_unavailable w) ≡ true))

  record IsSorted (jobs : List Job) (t : Triage F) : Type 0 where
    split : Interleave (map (λ w. w.job) t.completed) t.pending jobs
    recovered : All IsRecovered t.completed
    waits : All IsPending t.pending

  recovered :
      (job : Job) (w : WorkerResult F)
      → completed_worker job provider (saved job) ≡ ok (some w)
      → (retry && is_unavailable w) ≡ false
      → (w.job ≡ job) × IsRecovered w
  recovered job w e k =
      let (same, (result, stands, holds, scorable, identity, _)) =
        completed_worker-IsCollected job provider (saved job) w e in
      (
        same,
        record {
          result = result;
          stands = subst (λ j. saved j ≡ document (obj result)) (sym same) stands;
          holds = holds;
          scorable = scorable;
          same = subst (λ j. same_identity j provider result ≡ true) (sym same) identity;
          kept = k;
        },
      )

-- What a resume plan promises about the matrix that it was read from.
pub record IsFaithfulPlan {F S : Type 0} ⦃fl : Floats F⦄ (retry : Bool) (disk : Disk F S)
    (plan : ResumePlan F S) : Type 0 where
  -- The jobs are those that the benchmark describes.
  pub jobs : build_jobs (resume_spec disk.matrix_dir plan.benchmark) ≡ ok plan.all_jobs
  -- Each job is either recovered or pending, in the order of the plan.
  pub split : Interleave (map (λ w. w.job) plan.completed) plan.pending plan.all_jobs
  pub recovered : All (IsRecovered plan.benchmark.agent_provider retry disk.saved) plan.completed
  pub waits : All (IsPending plan.benchmark.agent_provider retry disk.saved) plan.pending
  -- A recovered result has the version that the benchmark gives its scenario.
  pub versions :
      All
        (λ w.
          same_version (saved_version w) (expected_version w.job.scenario plan.benchmark.scenarios)
          ≡ true)
        plan.completed
