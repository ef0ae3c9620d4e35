-- ===== src/Matrix/Jobs/Cells.antt =====
-- Which jobs `build_jobs` of run_host_matrix.py makes.
use replaybook.Prelude.{
  ℕ, zero, suc, ◌+◌, ◌*◌, ◌≡◌, refl, sym, ap, String, Option, List, [], ◌∷◌, ◌++◌, map, length,
  append_assoc, append-nil,
}
use replaybook.Prelude.Int.{to_nat}
use replaybook.Prelude.Eq.{Distinct, string_eq}
use replaybook.Prelude.Result.{ok}
use replaybook.Matrix.Jobs.{
  Job, JobSpec, Building, job_at, append_job, attempt_loop, effort_loop, model_loop, scenario_loop,
  all_jobs, build_jobs, efforts_or_none, run_ids,
}
use replaybook.Matrix.Jobs.Ids.{build_jobs-ids}
use replaybook.Matrix.Jobs.Ports.{build_jobs-eq-all_jobs}

-- A scenario, a model, an effort and an attempt.
abbrev pub JobCell : Type 0
JobCell = String × (Option String × (Option String × ℕ))

-- One list for each item, behind each other.
module _ {ℓ κ} {A : Type ℓ} {B : Type κ} where
  abbrev pub flat_map : (A → List B) → List A → List B
  flat_map f [] = []
  flat_map f (x ∷ xs) = f x ++ flat_map f xs

-- The numbers from `first` on.
abbrev pub numbers_from : ℕ → ℕ → List ℕ
numbers_from first zero = []
numbers_from first (suc n) = first ∷ numbers_from (first + 1) n

-- Each combination once, the attempts innermost and counted from 1.
abbrev pub all_cells : JobSpec → List JobCell
all_cells spec =
    flat_map
      (λ scenario.
        flat_map
          (λ model.
            flat_map
              (λ effort.
                map (λ attempt. (scenario, (model, (effort, attempt))))
                  (numbers_from 1 (to_nat spec.attempts)))
              (efforts_or_none spec.reasoning_efforts))
          spec.models)
      spec.scenarios

abbrev pub job_cell : Job → JobCell
job_cell job = (job.scenario, (job.model, (job.reasoning_effort, job.attempt)))

map-append : {A B : Type 0} (f : A → B) (xs ys : List A) → map f (xs ++ ys) ≡ map f xs ++ map f ys
map-append f [] ys = refl
map-append f (x ∷ xs) ys = ap (λ l. f x ∷ l) (map-append f xs ys)

module _ (spec : JobSpec) where
  attempt_loop-cells :
      (scenario : String) (model effort : Option String) (left attempt : ℕ) (b : Building)
      → map job_cell (attempt_loop spec scenario model effort left attempt b).jobs
        ≡ map job_cell b.jobs
          ++ map (λ n. (scenario, (model, (effort, n)))) (numbers_from attempt left)
  unfolding attempt_loop append_job job_at
  attempt_loop-cells scenario model effort zero attempt b = sym (append-nil _)
  attempt_loop-cells scenario model effort (suc left) attempt b =
      simp (attempt_loop-cells scenario model effort left (attempt + 1), map-append, append_assoc)

  effort_loop-cells :
      (scenario : String) (model : Option String) (efforts : List (Option String)) (b : Building)
      → map job_cell (effort_loop spec scenario model efforts b).jobs
        ≡ map job_cell b.jobs
          ++ flat_map
              (λ effort.
                map (λ n. (scenario, (model, (effort, n)))) (numbers_from 1 (to_nat spec.attempts)))
              efforts
  unfolding effort_loop
  effort_loop-cells scenario model [] b = sym (append-nil _)
  effort_loop-cells scenario model (effort ∷ efforts) b =
      simp (effort_loop-cells scenario model efforts, attempt_loop-cells, append_assoc)

  model_loop-cells :
      (scenario : String) (models : List (Option String)) (b : Building)
      → map job_cell (model_loop spec scenario models b).jobs
        ≡ map job_cell b.jobs
          ++ flat_map
              (λ model.
                flat_map
                  (λ effort.
                    map
                      (λ n. (scenario, (model, (effort, n))))
                      (numbers_from 1 (to_nat spec.attempts)))
                  (efforts_or_none spec.reasoning_efforts))
              models
  unfolding model_loop
  model_loop-cells scenario [] b = sym (append-nil _)
  model_loop-cells scenario (model ∷ models) b =
      simp (model_loop-cells scenario models, effort_loop-cells, append_assoc)

  scenario_loop-cells :
      (scenarios : List String) (b : Building)
      → map job_cell (scenario_loop spec scenarios b).jobs
        ≡ map job_cell b.jobs ++ all_cells (record spec { scenarios = scenarios })
  unfolding scenario_loop
  scenario_loop-cells [] b = sym (append-nil _)
  scenario_loop-cells (scenario ∷ scenarios) b =
      simp (scenario_loop-cells scenarios, model_loop-cells, append_assoc)

  all_jobs-cells : map job_cell (all_jobs spec) ≡ all_cells spec
  unfolding all_jobs
  all_jobs-cells = scenario_loop-cells spec.scenarios (record { jobs = []; index = 0 })

-- A plan that is built has exactly one job for each scenario, model, effort and attempt, nested in
-- this order, so as many as the product of their numbers, and no two of its jobs share a run id. No
-- list of efforts counts as one absent effort, and attempts below 0 as none.
pub build_jobs-cells :
    (spec : JobSpec) (jobs : List Job)
    → build_jobs spec ≡ ok jobs
    → (map job_cell jobs ≡ all_cells spec)
      × Distinct (run_ids jobs)
      × (length jobs
          ≡ length spec.scenarios
            * (length spec.models
                * (length (efforts_or_none spec.reasoning_efforts) * to_nat spec.attempts)))
build_jobs-cells spec jobs h =
    let same : map job_cell jobs ≡ all_cells spec =
      rw (← build_jobs-eq-all_jobs spec jobs h) (all_jobs-cells spec) in
    let (distinct, count) = build_jobs-ids spec jobs h in (same, distinct, count)
