-- ===== src/Matrix/Jobs/Ids.antt =====
-- The run ids of the jobs that `build_jobs` of run_host_matrix.py makes, and how many jobs it makes.
use replaybook.Prelude.{
  ℕ, zero, suc, ◌+◌, ◌*◌, ◌≡◌, refl, sym, ap, inl, inr, String, Option, List, [], ◌∷◌, ◌++◌, arith,
  length, length-append, length-map, Bool-cases, append_assoc, append-nil,
}
use replaybook.Prelude.Int.{to_nat}
use replaybook.Prelude.Text.{◌<>◌, decimal}
use replaybook.Prelude.Eq.{Distinct, string_eq, option_eq, length-unique_iff}
use replaybook.Prelude.Result.{ok}
use replaybook.Matrix.Jobs.{
  Job, JobSpec, Building, job_at, append_job, attempt_loop, effort_loop, model_loop, scenario_loop,
  all_jobs, build_jobs, efforts_or_none, run_ids, has_duplicates, model_slug, effort_slug,
}

-- The run ids as nested comprehensions over the texts that they are made of.
unfoldable pub ids_attempts : String → String → Option String → ℕ → ℕ → List String
ids_attempts scenario slug effort zero attempt = []
ids_attempts scenario slug effort (suc left) attempt =
    (scenario <> "-" <> slug <> effort_slug effort <> "-" <> decimal attempt)
    ∷ ids_attempts scenario slug effort left (attempt + 1)

unfoldable pub ids_efforts : String → String → ℕ → List (Option String) → List String
ids_efforts scenario slug attempts [] = []
ids_efforts scenario slug attempts (effort ∷ efforts) =
    ids_attempts scenario slug effort attempts 1 ++ ids_efforts scenario slug attempts efforts

unfoldable pub ids_models : String → ℕ → List (Option String) → List (Option String) → List String
ids_models scenario attempts efforts [] = []
ids_models scenario attempts efforts (model ∷ models) =
    ids_efforts scenario (model_slug model) attempts efforts
    ++ ids_models scenario attempts efforts models

unfoldable pub ids_scenarios :
    ℕ → List (Option String) → List (Option String) → List String → List String
ids_scenarios attempts efforts models [] = []
ids_scenarios attempts efforts models (scenario ∷ scenarios) =
    ids_models scenario attempts efforts models ++ ids_scenarios attempts efforts models scenarios

run_ids-append : (js ks : List Job) → run_ids (js ++ ks) ≡ run_ids js ++ run_ids ks
run_ids-append [] ks = refl
run_ids-append (j ∷ js) ks = ap (λ l. j.run_id ∷ l) (run_ids-append js ks)

module _ (spec : JobSpec) where
  attempt_loop-ids :
      (scenario : String) (model effort : Option String) (left attempt : ℕ) (b : Building)
      → run_ids (attempt_loop spec scenario model effort left attempt b).jobs
        ≡ run_ids b.jobs ++ ids_attempts scenario (model_slug model) effort left attempt
  unfolding attempt_loop append_job job_at ids_attempts
  attempt_loop-ids scenario model effort zero attempt b = sym (append-nil _)
  attempt_loop-ids scenario model effort (suc left) attempt b =
      simp (attempt_loop-ids scenario model effort left (attempt + 1), run_ids-append, append_assoc)

  effort_loop-ids :
      (scenario : String) (model : Option String) (efforts : List (Option String)) (b : Building)
      → run_ids (effort_loop spec scenario model efforts b).jobs
        ≡ run_ids b.jobs ++ ids_efforts scenario (model_slug model) (to_nat spec.attempts) efforts
  unfolding effort_loop ids_efforts
  effort_loop-ids scenario model [] b = sym (append-nil _)
  effort_loop-ids scenario model (effort ∷ efforts) b =
      simp (effort_loop-ids scenario model efforts, attempt_loop-ids, append_assoc)

  model_loop-ids :
      (scenario : String) (models : List (Option String)) (b : Building)
      → run_ids (model_loop spec scenario models b).jobs
        ≡ run_ids b.jobs
          ++ ids_models scenario
              (to_nat spec.attempts)
              (efforts_or_none spec.reasoning_efforts)
              models
  unfolding model_loop ids_models
  model_loop-ids scenario [] b = sym (append-nil _)
  model_loop-ids scenario (model ∷ models) b =
      simp (model_loop-ids scenario models, effort_loop-ids, append_assoc)

  scenario_loop-ids :
      (scenarios : List String) (b : Building)
      → run_ids (scenario_loop spec scenarios b).jobs
        ≡ run_ids b.jobs
          ++ ids_scenarios
              (to_nat spec.attempts)
              (efforts_or_none spec.reasoning_efforts)
              spec.models
              scenarios
  unfolding scenario_loop ids_scenarios
  scenario_loop-ids [] b = sym (append-nil _)
  scenario_loop-ids (scenario ∷ scenarios) b =
      simp (scenario_loop-ids scenarios, model_loop-ids, append_assoc)

  pub run_ids-all_jobs :
      run_ids (all_jobs spec)
      ≡ ids_scenarios
          (to_nat spec.attempts)
          (efforts_or_none spec.reasoning_efforts)
          spec.models
          spec.scenarios
  unfolding all_jobs
  run_ids-all_jobs = scenario_loop-ids spec.scenarios (record { jobs = []; index = 0 })

length-ids_attempts :
    (scenario slug : String) (effort : Option String) (left attempt : ℕ)
    → length (ids_attempts scenario slug effort left attempt) ≡ left
unfolding ids_attempts
length-ids_attempts scenario slug effort zero attempt = refl
length-ids_attempts scenario slug effort (suc left) attempt =
    ap suc (length-ids_attempts scenario slug effort left (attempt + 1))

length-ids_efforts :
    (scenario slug : String) (attempts : ℕ) (efforts : List (Option String))
    → length (ids_efforts scenario slug attempts efforts) ≡ length efforts * attempts
unfolding ids_efforts
length-ids_efforts scenario slug attempts [] = omega arith
length-ids_efforts scenario slug attempts (effort ∷ efforts) = omega (
  arith,
  length-append (ids_attempts scenario slug effort attempts 1)
      (ids_efforts scenario slug attempts efforts),
  length-ids_attempts scenario slug effort attempts 1,
  length-ids_efforts scenario slug attempts efforts,
)

length-ids_models :
    (scenario : String) (attempts : ℕ) (efforts models : List (Option String))
    → length (ids_models scenario attempts efforts models)
      ≡ length models * (length efforts * attempts)
unfolding ids_models
length-ids_models scenario attempts efforts [] = omega arith
length-ids_models scenario attempts efforts (model ∷ models) = omega (
  arith,
  length-append (ids_efforts scenario (model_slug model) attempts efforts)
      (ids_models scenario attempts efforts models),
  length-ids_efforts scenario (model_slug model) attempts efforts,
  length-ids_models scenario attempts efforts models,
)

length-ids_scenarios :
    (attempts : ℕ) (efforts models : List (Option String)) (scenarios : List String)
    → length (ids_scenarios attempts efforts models scenarios)
      ≡ length scenarios * (length models * (length efforts * attempts))
unfolding ids_scenarios
length-ids_scenarios attempts efforts models [] = omega arith
length-ids_scenarios attempts efforts models (scenario ∷ scenarios) = omega (
  arith,
  length-append (ids_models scenario attempts efforts models)
      (ids_scenarios attempts efforts models scenarios),
  length-ids_models scenario attempts efforts models,
  length-ids_scenarios attempts efforts models scenarios,
)

-- A plan that is built has a job for each scenario, model, effort and attempt, and no two of its
-- jobs share a run id. No list of efforts counts as one effort, and attempts below 0 as none.
pub build_jobs-ids :
    (spec : JobSpec) (jobs : List Job)
    → build_jobs spec ≡ ok jobs
    → Distinct (run_ids jobs)
      × (length jobs
          ≡ length spec.scenarios
            * (length spec.models
                * (length (efforts_or_none spec.reasoning_efforts) * to_nat spec.attempts)))
unfolding build_jobs
build_jobs-ids spec jobs h = elim (Bool-cases (has_duplicates (run_ids (all_jobs spec)))) [
  | inl dup ↦ absurd (ground arith)
  | inr fine ↦
      let same : all_jobs spec ≡ jobs = ground arith in
      (
        rw (← same) ((length-unique_iff (run_ids (all_jobs spec))).0 (ground arith)),
        rw (← same) (
            omega (
              arith,
              length-map (all_jobs spec) (λ j. j.run_id),
              ap length (run_ids-all_jobs spec),
              length-ids_scenarios (to_nat spec.attempts) (efforts_or_none spec.reasoning_efforts)
                  spec.models spec.scenarios,
            )),
      )
]
