-- ===== src/Matrix/Jobs/Ports.antt =====
-- The ports and the number of the jobs that `build_jobs` of run_host_matrix.py makes.
use replaybook.Prelude.{
  ℕ, zero, suc, ◌+◌, ◌*◌, ◌≤◌, ◌<◌, ◌≡◌, ◌↔◌, refl, String, false, Option, List, [], ◌∷◌, ◌++◌,
  arith, length, length-append, All, All-imp,
}
use replaybook.Prelude.Int.{ℤ, pos, negsuc, to_nat}
use replaybook.Prelude.Eq.{Distinct, elem, nat_eq}
use replaybook.Prelude.Result.{Result, ok, ◌>>=◌, >>=-eq-ok}
use replaybook.Matrix.Jobs.{
  Job, JobSpec, Building, job_at, append_job, attempt_loop, effort_loop, model_loop, scenario_loop,
  all_jobs, build_jobs, last_job, check_port_range, efforts_or_none,
}

-- The jobs hold the port pairs base + 2i, base + 2i + 1 from index `i` on.
abbrev pub Numbered : ℕ → ℕ → List Job → Type 0
Numbered base i [] = Unit
Numbered base i (j ∷ js) =
    (j.ssh_port ≡ base + i * 2) × (j.http_port ≡ base + i * 2 + 1) × Numbered base (suc i) js

Numbered-snoc :
    (base i : ℕ) (js : List Job) (j : Job)
    → Numbered base i js
    → j.ssh_port ≡ base + (i + length js) * 2
    → j.http_port ≡ base + (i + length js) * 2 + 1
    → Numbered base i (js ++ j ∷ [])
Numbered-snoc base i [] j h p q = (omega arith, omega arith, tt)
Numbered-snoc base i (k ∷ js) j h p q =
    (h.0, h.1, Numbered-snoc base (suc i) js j h.2 (omega arith) (omega arith))

-- What the loops of `build_jobs` keep.
pub record IsNumbered (spec : JobSpec) (b : Building) : Type 0 where
  pub numbered : Numbered spec.base_port 0 b.jobs
  pub counted : b.index ≡ length b.jobs

module _ (spec : JobSpec) where
  append_job-IsNumbered :
      (scenario : String) (model effort : Option String) (attempt : ℕ) {b : Building}
      → IsNumbered spec b
      → IsNumbered spec (append_job spec scenario model effort attempt b)
  unfolding append_job job_at
  append_job-IsNumbered scenario model effort attempt {b} h = record {
    numbered =
        Numbered-snoc spec.base_port 0 b.jobs (job_at spec scenario model effort attempt b.index)
          h.numbered (omega (arith, h.counted)) (omega (arith, h.counted));
    counted = omega (
      arith,
      h.counted,
      length-append b.jobs (job_at spec scenario model effort attempt b.index ∷ []),
    );
  }

  attempt_loop-IsNumbered :
      (scenario : String) (model effort : Option String) (left attempt : ℕ) {b : Building}
      → IsNumbered spec b
      → IsNumbered spec (attempt_loop spec scenario model effort left attempt b)
  unfolding attempt_loop
  attempt_loop-IsNumbered scenario model effort zero attempt h = h
  attempt_loop-IsNumbered scenario model effort (suc left) attempt h =
      attempt_loop-IsNumbered scenario model effort left (attempt + 1)
        (append_job-IsNumbered scenario model effort attempt h)

  effort_loop-IsNumbered :
      (scenario : String) (model : Option String) (efforts : List (Option String)) {b : Building}
      → IsNumbered spec b
      → IsNumbered spec (effort_loop spec scenario model efforts b)
  unfolding effort_loop
  effort_loop-IsNumbered scenario model [] h = h
  effort_loop-IsNumbered scenario model (effort ∷ efforts) h =
      effort_loop-IsNumbered scenario model efforts
        (attempt_loop-IsNumbered scenario model effort (to_nat spec.attempts) 1 h)

  model_loop-IsNumbered :
      (scenario : String) (models : List (Option String)) {b : Building}
      → IsNumbered spec b
      → IsNumbered spec (model_loop spec scenario models b)
  unfolding model_loop
  model_loop-IsNumbered scenario [] h = h
  model_loop-IsNumbered scenario (model ∷ models) h =
      model_loop-IsNumbered scenario models
        (effort_loop-IsNumbered scenario model (efforts_or_none spec.reasoning_efforts) h)

  scenario_loop-IsNumbered :
      (scenarios : List String) {b : Building}
      → IsNumbered spec b
      → IsNumbered spec (scenario_loop spec scenarios b)
  unfolding scenario_loop
  scenario_loop-IsNumbered [] h = h
  scenario_loop-IsNumbered (scenario ∷ scenarios) h =
      scenario_loop-IsNumbered scenarios (model_loop-IsNumbered scenario spec.models h)

  pub all_jobs-Numbered : Numbered spec.base_port 0 (all_jobs spec)
  unfolding all_jobs
  all_jobs-Numbered =
      (scenario_loop-IsNumbered spec.scenarios (record { numbered = tt; counted = refl })).numbered

pub build_jobs-eq-all_jobs :
    (spec : JobSpec) (jobs : List Job) → build_jobs spec ≡ ok jobs → all_jobs spec ≡ jobs
unfolding build_jobs
build_jobs-eq-all_jobs spec jobs h = ground arith

-- The jobs of a plan that was built, and the number of them.
pub build_jobs-Numbered :
    (spec : JobSpec) (jobs : List Job) → build_jobs spec ≡ ok jobs → Numbered spec.base_port 0 jobs
build_jobs-Numbered spec jobs h =
    rw (build_jobs-eq-all_jobs spec jobs h) at (all_jobs-Numbered spec)

-- Every port of the jobs, in order.
abbrev pub ports : List Job → List ℕ
ports [] = []
ports (j ∷ js) = j.ssh_port ∷ j.http_port ∷ ports js

Numbered-not_below :
    (base i : ℕ) (jobs : List Job) (p : ℕ)
    → Numbered base i jobs
    → p < base + i * 2
    → elem p (ports jobs) ≡ false
Numbered-not_below base i [] p h lt = refl
Numbered-not_below base i (j ∷ js) p h lt =
    ground (arith, h.0, h.1, Numbered-not_below base (suc i) js p h.2 (omega arith))

Numbered-Distinct : (base i : ℕ) (jobs : List Job) → Numbered base i jobs → Distinct (ports jobs)
Numbered-Distinct base i [] h = tt
Numbered-Distinct base i (j ∷ js) h = (
  ground (arith, h.0, h.1, Numbered-not_below base (suc i) js j.ssh_port h.2 (omega arith)),
  (
    Numbered-not_below base (suc i) js j.http_port h.2 (omega arith),
    Numbered-Distinct base (suc i) js h.2,
  ),
)

-- The last job has the highest ports, so a bound on its HTTP port is one on all ports.
Numbered-le_last :
    (base i : ℕ) (jobs : List Job) {last : Job}
    → Numbered base i jobs
    → last_job jobs ≡ ok last
    → 0 < base
    → All (λ p. (1 ≤ p) × (p ≤ last.http_port)) (ports jobs)
      × (last.http_port + 1 ≡ base + (i + length jobs) * 2)
Numbered-le_last base i [] h e lt = cc
Numbered-le_last base i (j ∷ []) {last} h e lt =
    let same : j.http_port ≡ last.http_port = ground arith in
    (
      ((omega (arith, h.0), omega (arith, h.0, h.1)), ((omega (arith, h.1), omega arith), tt)),
      omega (arith, h.1),
    )
Numbered-le_last base i (j ∷ k ∷ js) h e lt =
    let (rest, bound) = Numbered-le_last base (suc i) (k ∷ js) h.2 e lt in
    (
      ((omega (arith, h.0), omega (arith, h.0)), ((omega (arith, h.1), omega (arith, h.1)), rest)),
      omega arith,
    )

last_job-cons : (j : Job) (js : List Job) → (last : Job) × (last_job (j ∷ js) ≡ ok last)
last_job-cons j [] = (j, refl)
last_job-cons j (k ∷ js) = last_job-cons k js

-- What `main` schedules: the jobs of `build_jobs`, if their ports pass the test.
abbrev pub scheduled_jobs : ℤ → JobSpec → Result (List Job)
scheduled_jobs base_port spec = do
  jobs ← build_jobs (record spec { base_port = to_nat base_port })
  check_port_range base_port jobs

check_port_range-ok :
    (base_port : ℤ) (jobs js : List Job)
    → check_port_range base_port jobs ≡ ok js
    → (last : Job) × (last_job jobs ≡ ok last)
      × (last.http_port ≤ 65535)
      × (0 < to_nat base_port)
      × (js ≡ jobs)
unfolding check_port_range
check_port_range-ok (pos b) jobs js h =
    let (last, e, k) = >>=-eq-ok (last_job jobs) _ h in
    (last, e, ground arith, ground arith, ground arith)
check_port_range-ok (negsuc b) jobs js h =
    let (last, e, k) = >>=-eq-ok (last_job jobs) _ h in absurd (ground arith)

-- Whatever `main` schedules, all ports are different and lie between 1 and 65535, and the job at
-- position `k` has the ports base + 2k and base + 2k + 1.
pub scheduled_jobs-ports :
    (base_port : ℤ) (spec : JobSpec) (jobs : List Job)
    → scheduled_jobs base_port spec ≡ ok jobs
    → Distinct (ports jobs)
      × All (λ p. (1 ≤ p) × (p ≤ 65535)) (ports jobs)
      × Numbered (to_nat base_port) 0 jobs
scheduled_jobs-ports base_port spec jobs h =
    let (built, e, k) = >>=-eq-ok (build_jobs (record spec { base_port = to_nat base_port })) _ h in
    let (last, el, small, positive, same) = check_port_range-ok base_port built jobs k in
    let numbered = build_jobs-Numbered _ built e in
    let (bounds, _) = Numbered-le_last _ 0 built numbered el positive in
    rw same (
      Numbered-Distinct _ 0 built numbered,
      All-imp _ _ (λ p q. (q.0, omega (arith, q.1))) (ports built) bounds,
      numbered,
    )

check_port_range-fits :
    (b : ℕ) (jobs : List Job) (last : Job)
    → last_job jobs ≡ ok last
    → 0 < b
    → last.http_port ≤ 65535
    → check_port_range (pos b) jobs ≡ ok jobs
unfolding check_port_range
check_port_range-fits b jobs last e positive small = rw e (ground arith)

-- For a base port above 0 and a plan with at least one job, the port test passes exactly where
-- base + 2 * jobs is at most 65536.
pub check_port_range_iff :
    (b : ℕ) (spec : JobSpec) (j : Job) (js : List Job)
    → 0 < b
    → spec.base_port ≡ b
    → build_jobs spec ≡ ok (j ∷ js)
    → (check_port_range (pos b) (j ∷ js) ≡ ok (j ∷ js)) ↔ (b + 2 * length (j ∷ js) ≤ 65536)
check_port_range_iff b spec j js positive same e =
    let numbered = build_jobs-Numbered spec (j ∷ js) e in
    let (last, el) = last_job-cons j js in
    let (_, highest) = Numbered-le_last spec.base_port 0 (j ∷ js) numbered el (omega arith) in
    (
      (λ h.
          let (last', el', small, _, _) = check_port_range-ok (pos b) (j ∷ js) (j ∷ js) h in
          let (_, highest') =
            Numbered-le_last spec.base_port 0 (j ∷ js) numbered el' (omega arith) in
          omega arith),
      (λ h. check_port_range-fits b (j ∷ js) last el positive (omega arith)),
    )
