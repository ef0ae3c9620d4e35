-- ===== src/Tests/Jobs.antt =====
-- Plans of two jobs.
use replaybook.Prelude.{
  ℕ, ◌+◌, ◌*◌, ◌≤◌, ◌≡◌, ◌↔◌, refl, map, length, All, none, some, List, [], ◌∷◌, ◌++◌, arith,
}
use replaybook.Prelude.Int.{pos, to_nat}
use replaybook.Prelude.Eq.{Distinct, nat_eq, string_eq}
use replaybook.Prelude.Result.{ok, err, value_error}
use replaybook.Matrix.Slug.{slugify}
use replaybook.Matrix.Jobs.{Job, build_jobs, check_port_range, run_ids, efforts_or_none}
use replaybook.Matrix.Jobs.Ports.{
  Numbered, ports, scheduled_jobs, scheduled_jobs-ports, check_port_range_iff,
}
use replaybook.Matrix.Jobs.Cells.{job_cell, all_cells, build_jobs-cells}
use replaybook.Matrix.Jobs.Collisions.{build_jobs-collision}
use replaybook.Tests.Data.{two_models, job_a, job_b}

built : build_jobs two_models ≡ ok (job_a ∷ job_b ∷ [])
unfolding build_jobs replaybook.Matrix.Jobs.all_jobs replaybook.Matrix.Jobs.scenario_loop
    replaybook.Matrix.Jobs.model_loop replaybook.Matrix.Jobs.effort_loop
    replaybook.Matrix.Jobs.attempt_loop replaybook.Matrix.Jobs.append_job
    replaybook.Prelude.Eq.unique replaybook.Matrix.Jobs.job_at slugify
    replaybook.Prelude.Text.decimal
built = refl

scheduled : scheduled_jobs (pos 22600) two_models ≡ ok (job_a ∷ job_b ∷ [])
unfolding build_jobs check_port_range replaybook.Matrix.Jobs.all_jobs
    replaybook.Matrix.Jobs.scenario_loop replaybook.Matrix.Jobs.model_loop
    replaybook.Matrix.Jobs.effort_loop replaybook.Matrix.Jobs.attempt_loop
    replaybook.Matrix.Jobs.append_job replaybook.Prelude.Eq.unique replaybook.Matrix.Jobs.job_at
    slugify replaybook.Prelude.Text.decimal
scheduled = refl

scheduled_jobs-ports_example :
    Distinct (ports (job_a ∷ job_b ∷ []))
    × All (λ p. (1 ≤ p) × (p ≤ 65535)) (ports (job_a ∷ job_b ∷ []))
    × Numbered 22600 0 (job_a ∷ job_b ∷ [])
scheduled_jobs-ports_example =
    scheduled_jobs-ports (pos 22600) two_models (job_a ∷ job_b ∷ []) scheduled

check_port_range_iff_example :
    (check_port_range (pos 22600) (job_a ∷ job_b ∷ []) ≡ ok (job_a ∷ job_b ∷ []))
    ↔ (22600 + 2 * length (job_a ∷ job_b ∷ []) ≤ 65536)
check_port_range_iff_example =
    check_port_range_iff 22600 two_models job_a (job_b ∷ []) (omega arith) refl built

build_jobs-cells_example :
    (map job_cell (job_a ∷ job_b ∷ []) ≡ all_cells two_models)
    × Distinct (run_ids (job_a ∷ job_b ∷ []))
    × (length (job_a ∷ job_b ∷ [])
        ≡ length two_models.scenarios
          * (length two_models.models
              * (length (efforts_or_none two_models.reasoning_efforts)
                  * to_nat two_models.attempts)))
build_jobs-cells_example = build_jobs-cells two_models (job_a ∷ job_b ∷ []) built

build_jobs-collision_example :
    build_jobs (record two_models { models = some "x/y" ∷ some "X Y" ∷ [] })
    ≡ err (value_error "model names produce colliding run IDs")
unfolding slugify
build_jobs-collision_example =
    build_jobs-collision (record two_models { models = some "x/y" ∷ some "X Y" ∷ [] }) "013" [] 0
      (some "x/y" ∷ []) (some "X Y" ∷ []) (some "x/y") (some "X Y") refl refl refl refl refl refl
