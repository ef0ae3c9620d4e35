-- ===== src/Matrix/Jobs.antt =====
-- The job plan of a matrix: `Job`, `build_jobs` and the port test of `main` in
-- integrations/host/run_host_matrix.py. The loops thread the list of jobs and the running index as
-- the source does.
pub mod Ports
pub mod Paths
pub mod Ids
pub mod Collisions
pub mod Cells
use replaybook.Prelude.{
  ℕ, zero, suc, ◌+◌, ◌*◌, String, Bool, not, Option, none, some, List, [], ◌∷◌, ◌++◌, map, ◌||◌,
  ltb, nat_beq, length,
}
use replaybook.Prelude.Int.{ℤ, to_nat, is_positive}
use replaybook.Prelude.Eq.{unique, string_eq}
use replaybook.Prelude.Text.{FilePath, ◌<>◌, decimal}
use replaybook.Prelude.Result.{Result, ok, err, index_error, raise_if, ◌>>=◌, ◌>>◌}
use replaybook.Matrix.Slug.{slugify}

pub record Job : Type 0 where
  pub run_id : String
  pub scenario : String
  pub model : Option String
  pub attempt : ℕ
  pub ssh_port : ℕ
  pub http_port : ℕ
  pub output_dir : FilePath
  pub log_file : FilePath
  pub reasoning_effort : Option String

-- The arguments of `build_jobs`. An absent list of efforts and an empty one are the same to it.
pub record JobSpec : Type 0 where
  pub scenarios : List String
  pub models : List (Option String)
  pub attempts : ℤ
  pub base_port : ℕ
  pub matrix_dir : FilePath
  pub reasoning_efforts : List (Option String)

-- `jobs` and `index`.
pub record Building : Type 0 where
  pub jobs : List Job
  pub index : ℕ

abbrev pub model_slug : Option String → String
model_slug none = "oracle"
model_slug (some model) = slugify model

abbrev pub effort_slug : Option String → String
effort_slug none = ""
effort_slug (some effort) = "-reasoning-" <> slugify effort

abbrev pub run_id_of : String → Option String → Option String → ℕ → String
run_id_of scenario model effort attempt =
    scenario <> "-" <> model_slug model <> effort_slug effort <> "-" <> decimal attempt

-- `reasoning_efforts or [None]`
abbrev pub efforts_or_none : List (Option String) → List (Option String)
efforts_or_none [] = none ∷ []
efforts_or_none (e ∷ es) = e ∷ es

module _ (spec : JobSpec) where
  -- The job that one round of the innermost loop appends.
  unfoldable pub job_at : String → Option String → Option String → ℕ → ℕ → Job
  job_at scenario model effort attempt index =
      let run_id = run_id_of scenario model effort attempt in
      record {
        run_id = run_id;
        scenario = scenario;
        model = model;
        attempt = attempt;
        ssh_port = spec.base_port + index * 2;
        http_port = spec.base_port + index * 2 + 1;
        output_dir = spec.matrix_dir ++ "runs" ∷ run_id ∷ [];
        log_file = spec.matrix_dir ++ "logs" ∷ (run_id <> ".log") ∷ [];
        reasoning_effort = effort;
      }

  unfoldable pub append_job : String → Option String → Option String → ℕ → Building → Building
  append_job scenario model effort attempt b = record {
    jobs = b.jobs ++ job_at scenario model effort attempt b.index ∷ [];
    index = b.index + 1;
  }

  -- `for attempt in range(1, attempts + 1)`, by the rounds left.
  unfoldable pub attempt_loop : String → Option String → Option String → ℕ → ℕ → Building → Building
  attempt_loop scenario model effort zero attempt b = b
  attempt_loop scenario model effort (suc left) attempt b =
      attempt_loop scenario model effort left (attempt + 1)
        (append_job scenario model effort attempt b)

  unfoldable pub effort_loop : String → Option String → List (Option String) → Building → Building
  effort_loop scenario model [] b = b
  effort_loop scenario model (effort ∷ efforts) b =
      effort_loop scenario model efforts
        (attempt_loop scenario model effort (to_nat spec.attempts) 1 b)

  unfoldable pub model_loop : String → List (Option String) → Building → Building
  model_loop scenario [] b = b
  model_loop scenario (model ∷ models) b =
      model_loop scenario models
        (effort_loop scenario model (efforts_or_none spec.reasoning_efforts) b)

  unfoldable pub scenario_loop : List String → Building → Building
  scenario_loop [] b = b
  scenario_loop (scenario ∷ scenarios) b =
      scenario_loop scenarios (model_loop scenario spec.models b)

  unfoldable pub all_jobs : List Job
  all_jobs = (scenario_loop spec.scenarios (record { jobs = []; index = 0 })).jobs

abbrev pub run_ids : List Job → List String
run_ids jobs = map (λ j. j.run_id) jobs

-- `len(run_ids) != len(set(run_ids))`
abbrev pub has_duplicates : List String → Bool
has_duplicates ids = not (nat_beq (length ids) (length (unique ids)))

unfoldable pub build_jobs : JobSpec → Result (List Job)
build_jobs spec =
    let jobs = all_jobs spec in
    do raise_if (has_duplicates (run_ids jobs)) "model names produce colliding run IDs"; ok jobs

abbrev pub last_job : List Job → Result Job
last_job [] = err index_error
last_job (j ∷ []) = ok j
last_job (j ∷ k ∷ js) = last_job (k ∷ js)

-- `jobs[-1].http_port > 65535 or args.base_port <= 0`
unfoldable pub check_port_range : ℤ → List Job → Result (List Job)
check_port_range base_port jobs = do
  last ← last_job jobs
  raise_if (ltb 65535 last.http_port || not (is_positive base_port))
      "matrix port range must stay between 1 and 65535"
  ok jobs
