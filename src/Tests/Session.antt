-- ===== src/Tests/Session.antt =====
-- A session whose only job has its result and whose worker is gone, and a worker that begins.
use replaybook.Prelude.{
  ℕ, ◌≡◌, ◌↔◌, refl, inl, inr, String, true, false, Option, none, some, List, [], ◌∷◌,
}
use replaybook.Prelude.Int.{pos}
use replaybook.Prelude.Text.{FilePath}
use replaybook.Prelude.Result.{ok}
use replaybook.Json.{Value, int, str, arr, obj, nil, cons, Fields, end, field}
use replaybook.Json.Access.{eq_str, index}
use replaybook.Matrix.Results.{absent, document}
use replaybook.Matrix.Resume.{Benchmark}
use replaybook.Session.{
  MatrixDir, MatrixReport, SessionDir, SessionReport, is_terminal, status_of, matrix_report,
  managed_report,
}
use replaybook.Session.Complete.{IsComplete, matrix_report-IsComplete}
use replaybook.Session.Alive.{IsShown, managed_report-IsShown, managed_report-IsComplete}
use replaybook.Session.Profile.{LifecycleArgs, Settings, load_profile}
use replaybook.Session.Profile.Public.{IsPublic, load_profile-IsPublic}
use replaybook.Session.Lifecycle.{
  System, first_state, announce, spawn, register, lock, begin, prepare, kill, leave, Reach, here,
  next,
}
use replaybook.Session.Lifecycle.Exclusive.{IsSound, Reach-IsSound}
use replaybook.Session.Lifecycle.Matrices.{Reach-matrices}
use replaybook.Tests.Data.{nat_floats, saved_benchmark, reading_a}

abbrev one_model : Benchmark
one_model = record saved_benchmark { models = "a" ∷ [] }

abbrev done_matrix : MatrixDir ℕ
done_matrix = record {
  path = "m" ∷ [];
  benchmark = ok one_model;
  saved = λ job. reading_a;
  log_age = λ job. none;
  summary = document (obj (field "infrastructure_errors" (arr nil) end));
}

matrix_done : (r : MatrixReport ℕ) × (matrix_report done_matrix false ≡ ok r)
unfolding matrix_report replaybook.Matrix.Jobs.build_jobs replaybook.Matrix.Jobs.all_jobs
    replaybook.Matrix.Jobs.scenario_loop replaybook.Matrix.Jobs.model_loop
    replaybook.Matrix.Jobs.effort_loop replaybook.Matrix.Jobs.attempt_loop
    replaybook.Matrix.Jobs.append_job replaybook.Prelude.Eq.unique
    replaybook.Matrix.Results.completed_worker replaybook.Matrix.Results.load_result
    replaybook.Json.Access.has_key replaybook.Matrix.Results.valid_fields
    replaybook.Matrix.Results.valid_values replaybook.Json.Access.get replaybook.Json.Access.get_or
    replaybook.Matrix.Results.same_identity replaybook.Json.Access.find
    replaybook.Matrix.Jobs.job_at replaybook.Matrix.Results.judge_result
    replaybook.Matrix.Results.keep_saved replaybook.Matrix.Slug.lower
    replaybook.Matrix.Slug.lower_char replaybook.Matrix.Slug.lower_in replaybook.Matrix.Slug.slugify
    replaybook.Matrix.Summary.summarize_runs replaybook.Prelude.Eq.unique_from
    replaybook.Prelude.Order.insert replaybook.Prelude.Order.sort replaybook.Prelude.Text.decimal
    replaybook.Prelude.Text.digit replaybook.Session.is_complete replaybook.Session.matrix_jobs
    replaybook.Session.report_of replaybook.Session.see_job replaybook.Session.see_jobs
matrix_done = (_, refl)

matrix_report-IsComplete_example :
    (eq_str matrix_done.0.state "completed" ≡ true) ↔ IsComplete done_matrix
matrix_report-IsComplete_example = matrix_report-IsComplete done_matrix matrix_done.0 matrix_done.1

abbrev gone_session : SessionDir ℕ
gone_session = record {
  path = "s" ∷ [];
  session = document (obj (field "profile" (str "nightly") end));
  status = document (obj (field "state" (str "running") end));
  alive = false;
  matrix = some done_matrix;
  own = done_matrix;
}

session_done : (r : SessionReport ℕ) × (managed_report gone_session ≡ ok r)
unfolding managed_report index matrix_report replaybook.Matrix.Jobs.build_jobs
    replaybook.Matrix.Jobs.all_jobs replaybook.Matrix.Jobs.scenario_loop
    replaybook.Matrix.Jobs.model_loop replaybook.Matrix.Jobs.effort_loop
    replaybook.Matrix.Jobs.attempt_loop replaybook.Matrix.Jobs.append_job
    replaybook.Prelude.Eq.unique replaybook.Matrix.Results.completed_worker
    replaybook.Matrix.Results.load_result replaybook.Json.Access.has_key
    replaybook.Matrix.Results.valid_fields replaybook.Matrix.Results.valid_values
    replaybook.Json.Access.get replaybook.Json.Access.find replaybook.Json.Access.get_or
    replaybook.Matrix.Jobs.job_at replaybook.Matrix.Results.judge_result
    replaybook.Matrix.Results.keep_saved replaybook.Matrix.Results.same_identity
    replaybook.Matrix.Slug.lower replaybook.Matrix.Slug.lower_char replaybook.Matrix.Slug.lower_in
    replaybook.Matrix.Slug.slugify replaybook.Matrix.Summary.summarize_runs
    replaybook.Prelude.Eq.unique_from replaybook.Prelude.Order.insert replaybook.Prelude.Order.sort
    replaybook.Prelude.Text.decimal replaybook.Prelude.Text.digit replaybook.Session.is_complete
    replaybook.Session.matrix_jobs replaybook.Session.read_object replaybook.Session.report_of
    replaybook.Session.see_job replaybook.Session.see_jobs replaybook.Session.session_state
session_done = (_, refl)

managed_report-IsShown_example :
    (status : Fields ℕ) × (state : Value ℕ) × (status_of gone_session.status ≡ ok status)
    × (index "state" status ≡ ok state)
    × IsShown gone_session.alive state session_done.0.report.state
managed_report-IsShown_example = managed_report-IsShown gone_session session_done.0 session_done.1

abbrev running_status : Fields ℕ
running_status = field "state" (str "running") end

reads_status : status_of gone_session.status ≡ ok running_status
unfolding replaybook.Session.read_object
reads_status = refl

finds_state : index "state" running_status ≡ ok (str "running")
unfolding index
finds_state = refl

ongoing : is_terminal {F = ℕ} (str "running") ≡ ok false
ongoing = refl

says_completed : eq_str session_done.0.report.state "completed" ≡ true
unfolding session_done
says_completed = refl

managed_report-IsComplete_example :
    (m : MatrixDir ℕ) × (gone_session.matrix ≡ some m) × IsComplete m
managed_report-IsComplete_example =
    managed_report-IsComplete gone_session session_done.0 running_status (str "running")
      session_done.1 refl reads_status finds_state ongoing says_completed

abbrev sessions_json : Fields ℕ
sessions_json = field "schema_version" (int (pos 1)) (
    field "profiles"
      (obj (
        field "nightly"
          (obj (
            field "args" (arr (cons (str "--models") (cons (str "a") nil))) (
              field "environment" (obj (field "REPLAYBOOK_OPENAI_PROXY_PATH" (str "/api") end))
                end)))
          end))
      end)

abbrev plain_args : List String → Option LifecycleArgs
plain_args args = some (record {
  resume = false;
  output_dir = false;
  check = false;
  list_scenarios = false;
  refresh_controller = false;
  retry_unavailable = false;
})

profile :
    (s : Settings) × (load_profile plain_args
        (λ path. path)
        (λ path. ok tt)
        ("sessions.json" ∷ [])
        (document (obj sessions_json))
        "nightly"
      ≡ ok s)
unfolding load_profile replaybook.Json.Access.get replaybook.Json.Access.get_or
profile = (_, refl)

load_profile-IsPublic_example : IsPublic plain_args profile.0
load_profile-IsPublic_example =
    load_profile-IsPublic plain_args (λ path. path) (λ path. ok tt) ("sessions.json" ∷ [])
      (document (obj sessions_json)) "nightly" profile.0 profile.1

-- The first worker takes the lock and begins.
begun : (s : System) × Reach first_state s
begun = (
  _,
  next
      (next (next (next here (announce false refl refl (λ h. absurd cc))) (spawn refl))
        (lock 0 refl refl refl))
      (begin 0 refl refl),
)

Reach-IsSound_example : IsSound begun.0
Reach-IsSound_example = Reach-IsSound begun.1

Reach-matrices_example : ◌≡◌ {A = ℕ} 0 0
unfolding begun
Reach-matrices_example = Reach-matrices begun.1 0 0 refl refl refl refl

-- A worker is killed while its matrix runs, and the session is resumed.
resumed : (s : System) × Reach first_state s
unfolding begun leave
resumed = (
  _,
  next
      (next
        (next
          (next (next (next (next begun.1 (register refl)) (prepare 0 refl)) (kill 0 refl))
            (announce true refl refl (λ h. refl)))
          (spawn refl))
        (lock 1 refl refl refl))
      (begin 1 refl refl),
)

-- Its first matrix runs beside the second.
both_run : (resumed.0.matrices 0 ≡ true) × (resumed.0.matrices 1 ≡ true)
unfolding resumed
both_run = (refl, refl)
