-- ===== src/Matrix/Jobs/Paths.antt =====
-- Where `build_jobs` of run_host_matrix.py puts the files of a job.
use replaybook.Prelude.{
  ℕ, zero, suc, ◌+◌, ◌≡◌, refl, subst, String, Option, List, [], ◌∷◌, ◌++◌, All, All-append,
}
use replaybook.Prelude.Int.{to_nat}
use replaybook.Prelude.Text.{FilePath, ◌<>◌}
use replaybook.Prelude.Result.{ok}
use replaybook.Matrix.Jobs.{
  Job, JobSpec, Building, job_at, append_job, attempt_loop, effort_loop, model_loop, scenario_loop,
  all_jobs, build_jobs, efforts_or_none,
}
use replaybook.Matrix.Jobs.Ports.{build_jobs-eq-all_jobs}

abbrev pub StandsIn : FilePath → Job → Type 0
StandsIn matrix_dir job =
    (job.output_dir ≡ matrix_dir ++ "runs" ∷ job.run_id ∷ [])
    × (job.log_file ≡ matrix_dir ++ "logs" ∷ (job.run_id <> ".log") ∷ [])

module _ (spec : JobSpec) where
  append_job-StandsIn :
      (scenario : String) (model effort : Option String) (attempt : ℕ) (b : Building)
      → All (StandsIn spec.matrix_dir) b.jobs
      → All (StandsIn spec.matrix_dir) (append_job spec scenario model effort attempt b).jobs
  unfolding append_job job_at
  append_job-StandsIn scenario model effort attempt b h =
      All-append (StandsIn spec.matrix_dir) b.jobs
        (job_at spec scenario model effort attempt b.index ∷ []) h ((refl, refl), tt)

  attempt_loop-StandsIn :
      (scenario : String) (model effort : Option String) (left attempt : ℕ) (b : Building)
      → All (StandsIn spec.matrix_dir) b.jobs
      → All (StandsIn spec.matrix_dir) (attempt_loop spec scenario model effort left attempt b).jobs
  unfolding attempt_loop
  attempt_loop-StandsIn scenario model effort zero attempt b h = h
  attempt_loop-StandsIn scenario model effort (suc left) attempt b h =
      attempt_loop-StandsIn scenario model effort left (attempt + 1)
        (append_job spec scenario model effort attempt b)
        (append_job-StandsIn scenario model effort attempt b h)

  effort_loop-StandsIn :
      (scenario : String) (model : Option String) (efforts : List (Option String)) (b : Building)
      → All (StandsIn spec.matrix_dir) b.jobs
      → All (StandsIn spec.matrix_dir) (effort_loop spec scenario model efforts b).jobs
  unfolding effort_loop
  effort_loop-StandsIn scenario model [] b h = h
  effort_loop-StandsIn scenario model (effort ∷ efforts) b h =
      effort_loop-StandsIn scenario model efforts
        (attempt_loop spec scenario model effort (to_nat spec.attempts) 1 b)
        (attempt_loop-StandsIn scenario model effort (to_nat spec.attempts) 1 b h)

  model_loop-StandsIn :
      (scenario : String) (models : List (Option String)) (b : Building)
      → All (StandsIn spec.matrix_dir) b.jobs
      → All (StandsIn spec.matrix_dir) (model_loop spec scenario models b).jobs
  unfolding model_loop
  model_loop-StandsIn scenario [] b h = h
  model_loop-StandsIn scenario (model ∷ models) b h =
      model_loop-StandsIn scenario models
        (effort_loop spec scenario model (efforts_or_none spec.reasoning_efforts) b)
        (effort_loop-StandsIn scenario model (efforts_or_none spec.reasoning_efforts) b h)

  scenario_loop-StandsIn :
      (scenarios : List String) (b : Building)
      → All (StandsIn spec.matrix_dir) b.jobs
      → All (StandsIn spec.matrix_dir) (scenario_loop spec scenarios b).jobs
  unfolding scenario_loop
  scenario_loop-StandsIn [] b h = h
  scenario_loop-StandsIn (scenario ∷ scenarios) b h =
      scenario_loop-StandsIn scenarios (model_loop spec scenario spec.models b)
        (model_loop-StandsIn scenario spec.models b h)

  pub build_jobs-StandsIn :
      (jobs : List Job) → build_jobs spec ≡ ok jobs → All (StandsIn spec.matrix_dir) jobs
  unfolding all_jobs
  build_jobs-StandsIn jobs h =
      subst (All (StandsIn spec.matrix_dir)) (build_jobs-eq-all_jobs spec jobs h)
        (scenario_loop-StandsIn spec.scenarios (record { jobs = []; index = 0 }) tt)
