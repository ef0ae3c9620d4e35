-- ===== src/Matrix/Workers/Bounds.antt =====
-- How many processes the pool of `run_jobs` in run_host_matrix.py keeps, and what its counters say.
use replaybook.Prelude.{
  ℕ, suc, ◌+◌, ◌≤◌, ◌≡◌, refl, sym, inl, inr, String, Option, some, List, [], ◌∷◌, map, length,
  length-set, length-map, count_if, count_if-set, get_elem?, arith, Option-cases, ◌-◌,
}
use replaybook.Prelude.Int.{ℤ}
use replaybook.Prelude.Result.{Result, ok, err}
use replaybook.Json.Floats.{Floats}
use replaybook.Matrix.Jobs.{Job}
use replaybook.Matrix.Results.{Reading, WorkerResult, collect_worker}
use replaybook.Matrix.Workers.{
  waiting, running, finished, cancelled, Task, Pool, Event, start, exit, interrupt, is_waiting,
  is_running, is_finished, launch, start_task, cancel_task, interrupt_all, finish_task, exit_task,
  step, run,
}

module _ (F : Type 0) where
  abbrev pub fresh : Job → Task F
  fresh j = record { job = j; phase = waiting }

  pub count_map-waiting :
      (jobs : List Job)
      → (count_if (λ t. is_running t.phase) (map fresh jobs) ≡ 0)
        × (count_if (λ t. is_waiting t.phase) (map fresh jobs) ≡ length jobs)
        × (count_if (λ t. is_finished t.phase) (map fresh jobs) ≡ 0)
  count_map-waiting [] = (refl, refl, refl)
  count_map-waiting (j ∷ jobs) = ground (arith, count_map-waiting jobs)

module _ {F : Type 0} where
  abbrev pub count_running : List (Task F) → ℕ
  count_running ts = count_if (λ t. is_running t.phase) ts

  abbrev pub count_waiting : List (Task F) → ℕ
  count_waiting ts = count_if (λ t. is_waiting t.phase) ts

  abbrev pub count_finished : List (Task F) → ℕ
  count_finished ts = count_if (λ t. is_finished t.phase) ts

  -- The pool of `total` tasks over a semaphore of `concurrency` permits.
  pub record IsBounded (concurrency total : ℕ) (pool : Pool F) : Type 0 where
    pub size : length pool.tasks ≡ total
    pub permits : pool.permits + count_running pool.tasks ≡ concurrency
    pub started : pool.progress.started + count_waiting pool.tasks ≤ total
    pub completed : pool.progress.completed ≡ count_finished pool.tasks
    pub ordered : pool.progress.completed + count_running pool.tasks ≤ pool.progress.started

  pub launch-IsBounded :
      (concurrency : ℕ) (jobs : List Job)
      → IsBounded concurrency (length jobs) (launch concurrency jobs)
  unfolding launch
  launch-IsBounded concurrency jobs =
      let (r, w, f) = count_map-waiting F jobs in
      record {
        size = length-map jobs _;
        permits = omega (arith, r);
        started = omega (arith, w);
        completed = sym f;
        ordered = omega (arith, r);
      }

  count_cancel :
      (ts : List (Task F))
      → (count_running (map cancel_task ts) ≡ 0)
        × (count_waiting (map cancel_task ts) ≡ 0)
        × (count_finished (map cancel_task ts) ≡ count_finished ts)
  unfolding cancel_task
  count_cancel [] = (refl, refl, refl)
  count_cancel (t ∷ ts) = ground (arith, count_cancel ts)

  interrupt_all-IsBounded :
      {c n : ℕ} {pool : Pool F} → IsBounded c n pool → IsBounded c n (interrupt_all pool)
  unfolding interrupt_all
  interrupt_all-IsBounded {pool = pool} h =
      let (r, w, f) = count_cancel pool.tasks in
      record {
        size = omega (arith, length-map pool.tasks cancel_task, h.size);
        permits = omega (arith, r, h.permits);
        started = omega (arith, w, h.started);
        completed = omega (arith, f, h.completed);
        ordered = omega (arith, r, h.ordered);
      }

  start_task-IsBounded :
      {c n : ℕ} (i : ℕ) (t : Task F) (left : ℕ) (pool pool' : Pool F)
      → IsBounded c n pool
      → pool.permits ≡ suc left
      → get_elem? pool.tasks i ≡ some t
      → start_task i t left pool ≡ some pool'
      → IsBounded c n pool'
  unfolding start_task
  start_task-IsBounded i t left pool pool' h p g e =
      let t' : Task F = record t { phase = running } in
      let r = count_if-set (λ t. is_running t.phase) pool.tasks i t' t g in
      let w = count_if-set (λ t. is_waiting t.phase) pool.tasks i t' t g in
      let f = count_if-set (λ t. is_finished t.phase) pool.tasks i t' t g in
      ground (arith, r, w, f, length-set pool.tasks i t')

module _ {F : Type 0} ⦃fl : Floats F⦄ where
  finish_task-IsBounded :
      {c n : ℕ} (i : ℕ) (t : Task F) (r : Result (WorkerResult F)) (pool : Pool F)
      → IsBounded c n pool
      → get_elem? pool.tasks i ≡ some t
      → t.phase ≡ running
      → IsBounded c n (finish_task i t r pool)
  unfolding finish_task
  finish_task-IsBounded i t (ok w) pool h g e =
      let t' : Task F = record t { phase = finished w } in
      let r = count_if-set (λ t. is_running t.phase) pool.tasks i t' t g in
      let w = count_if-set (λ t. is_waiting t.phase) pool.tasks i t' t g in
      let f = count_if-set (λ t. is_finished t.phase) pool.tasks i t' t g in
      ground (arith, r, w, f, length-set pool.tasks i t')
  finish_task-IsBounded i t (err x) pool h g e =
      let t' : Task F = record t { phase = cancelled } in
      let r = count_if-set (λ t. is_running t.phase) pool.tasks i t' t g in
      let w = count_if-set (λ t. is_waiting t.phase) pool.tasks i t' t g in
      let f = count_if-set (λ t. is_finished t.phase) pool.tasks i t' t g in
      ground (arith, r, w, f, length-set pool.tasks i t')

  pub exit_task-running :
      (provider : Option String) (i : ℕ) (t : Task F) (code : ℤ) (reading : Reading F)
      (pool pool' : Pool F)
      → exit_task provider i t code reading pool ≡ some pool'
      → (t.phase ≡ running)
        × (finish_task i t (collect_worker t.job provider code reading) pool ≡ pool')
  unfolding exit_task
  exit_task-running provider i t code reading pool pool' h = (ground arith, ground arith)

  pub step-IsBounded :
      (provider : Option String) {c n : ℕ} (ev : Event F) (pool pool' : Pool F)
      → IsBounded c n pool
      → step provider ev pool ≡ some pool'
      → IsBounded c n pool'
  unfolding step
  step-IsBounded provider (start i) pool pool' h e = elim (Option-cases (get_elem? pool.tasks i)) [
    | inl g ↦ absurd (ground (arith, g))
    | inr (t, g) ↦ ground (arith, g, start_task-IsBounded i t (pool.permits - 1) pool pool' h)
  ]
  step-IsBounded provider (exit i code reading) pool pool' h e =
      elim (Option-cases (get_elem? pool.tasks i)) [
        | inl g ↦ absurd (ground (arith, g))
        | inr (t, g) ↦
            let (r, same) =
              exit_task-running provider i t code reading pool pool' (ground (arith, g)) in
            rw (← same)
              (finish_task-IsBounded i t (collect_worker t.job provider code reading) pool h g r)
      ]
  step-IsBounded provider interrupt pool pool' h e =
      let same : interrupt_all pool ≡ pool' = ground arith in
      rw (← same) (interrupt_all-IsBounded h)

  pub run-IsBounded :
      (provider : Option String) {c n : ℕ} (evs : List (Event F)) (pool pool' : Pool F)
      → IsBounded c n pool
      → run provider evs pool ≡ some pool'
      → IsBounded c n pool'
  unfolding run
  run-IsBounded provider [] pool pool' h e = let same : pool ≡ pool' = ground arith in rw (← same) h
  run-IsBounded provider (ev ∷ evs) pool pool' h e = elim (Option-cases (step provider ev pool)) [
    | inl stuck ↦ absurd (ground (arith, stuck))
    | inr (next, s) ↦
        run-IsBounded provider evs next pool' (step-IsBounded provider ev pool next h s)
          (ground (arith, s))
  ]

  -- After any events, interruptions and failing workers included, at most `concurrency` processes
  -- run, every permit that no process holds is back in the semaphore, no more tasks were started
  -- than there are jobs, and `completed` counts the tasks that returned a result.
  pub run-le-concurrency :
      (provider : Option String) (concurrency : ℕ) (jobs : List Job) (evs : List (Event F))
      (pool : Pool F)
      → run provider evs (launch concurrency jobs) ≡ some pool
      → (count_running pool.tasks ≤ concurrency)
        × (pool.permits + count_running pool.tasks ≡ concurrency)
        × (pool.progress.started ≤ length jobs)
        × (pool.progress.completed ≡ count_finished pool.tasks)
        × (pool.progress.completed + count_running pool.tasks ≤ pool.progress.started)
  run-le-concurrency provider concurrency jobs evs pool e =
      let h = run-IsBounded provider evs _ pool (launch-IsBounded concurrency jobs) e in
      (omega (arith, h.permits), h.permits, omega (arith, h.started), h.completed, h.ordered)
