-- ===== src/Plan/Commands/Ports.antt =====
-- The ports of the matrices that `build_commands` of benchmark_plan.py plans.
use replaybook.Prelude.{
  ℕ, ◌+◌, ◌*◌, ◌≤◌, ◌≡◌, refl, subst, inl, inr, String, Option, none, some, List, [], ◌∷◌, map, ltb,
  arith, Bool-cases,
}
use replaybook.Prelude.Int.{ℤ, pos}
use replaybook.Prelude.Eq.{string_eq, option_eq, list_eq, pair_eq}
use replaybook.Prelude.Text.{FilePath}
use replaybook.Prelude.Order.{string_leb, sort}
use replaybook.Prelude.Groups.{group_into}
use replaybook.Prelude.Result.{ok, >>=-eq-ok, map_result, ok-injective}
use replaybook.Manifest.{BenchmarkManifest}
use replaybook.Matrix.Jobs.{Job, JobSpec, build_jobs, check_port_range}
use replaybook.Plan.Gaps.{Gap}
use replaybook.Plan.Commands.{
  CommandPlan, Ranked, lane_entry, rank, ranked_leb, trials_of, plan_loop, build_commands,
}

module _ (manifest : BenchmarkManifest) (concurrency : ℤ) where
  -- From a port on, each command takes two ports for each of its trials, behind those of the command
  -- before, and all stay below 65536.
  abbrev pub Packed : ℕ → List CommandPlan → Type 0
  Packed base [] = Unit
  Packed base (p ∷ plans) =
      (p.base_port ≡ base)
      × (p.trials ≡ trials_of manifest p.scenarios p.models)
      × (base + p.trials * 2 ≤ 65536)
      × Packed (base + p.trials * 2) plans

  plan_loop-Packed :
      (groups : List Ranked) (base : ℕ) (plans : List CommandPlan)
      → plan_loop manifest concurrency groups base ≡ ok plans
      → Packed base plans
  unfolding plan_loop
  plan_loop-Packed [] base plans h = subst (Packed base) (ok-injective h) tt
  plan_loop-Packed ((r, (key, models)) ∷ groups) base plans h =
      let ordered = sort string_leb models in
      let trials = trials_of manifest key.1.1 ordered in
      elim (Bool-cases (ltb 65536 (base + trials * 2))) [
        | inl over ↦ absurd (cc (rw over at h))
        | inr fits ↦
            let (rest, e, k) =
              >>=-eq-ok (plan_loop manifest concurrency groups (base + trials * 2)) _
                (rw fits at h) in
            subst (Packed base) (ok-injective k)
              (refl, refl, ground arith, plan_loop-Packed groups (base + trials * 2) rest e)
      ]

  -- The commands of a plan take ports one behind the other from the base port on, two for each
  -- trial, so that no two of them share a port, and none goes above 65535.
  pub build_commands-Packed :
      (gaps : List Gap) (base_port : ℕ) (plans : List CommandPlan)
      → build_commands manifest concurrency gaps base_port ≡ ok plans
      → Packed base_port plans
  unfolding build_commands
  build_commands-Packed gaps base_port plans h =
      let (entries, _, h) =
        >>=-eq-ok (map_result (lane_entry manifest) (group_into (λ gap. gap.lane) gaps [])) _ h in
      let (ranked, _, h) =
        >>=-eq-ok (map_result (rank manifest) (group_into (λ e. e.0) entries [])) _ h in
      plan_loop-Packed (sort ranked_leb ranked) base_port plans h

  abbrev pub effort_list : Option String → List (Option String)
  effort_list none = []
  effort_list (some effort) = some effort ∷ []

  -- What run_host_matrix.py makes of the arguments of a command.
  abbrev pub command_spec : FilePath → CommandPlan → JobSpec
  command_spec matrix_dir p = record {
    scenarios = p.scenarios;
    models = map some p.models;
    attempts = manifest.attempts;
    base_port = p.base_port;
    matrix_dir = matrix_dir;
    reasoning_efforts = effort_list p.reasoning_effort;
  }

  -- The port test passes the jobs of the command.
  abbrev pub IsAccepted : FilePath → CommandPlan → Type 0
  IsAccepted matrix_dir p =
      (j : Job) (js : List Job)
      → build_jobs (command_spec matrix_dir p) ≡ ok (j ∷ js)
      → check_port_range (pos p.base_port) (j ∷ js) ≡ ok (j ∷ js)
