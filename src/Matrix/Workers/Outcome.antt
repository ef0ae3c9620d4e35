-- ===== src/Matrix/Workers/Outcome.antt =====
-- How a run of the pool of `run_jobs` in run_host_matrix.py goes on and ends, and what it returns.
use replaybook.Prelude.{
  ℕ, zero, suc, ◌+◌, ◌-◌, ◌*◌, ◌≤◌, ◌<◌, ◌≡◌, ◌≢◌, ◌↔◌, refl, ◌⊎◌, inl, inr, String, Bool, true,
  false, Option, none, some, List, [], ◌∷◌, length, count_if, count_if-set, get_elem?, arith,
  Bool-cases, Option-cases, All,
}
use replaybook.Prelude.Int.{ℤ}
use replaybook.Prelude.Result.{Result, ok, err}
use replaybook.Json.Floats.{Floats}
use replaybook.Matrix.Jobs.{Job}
use replaybook.Matrix.Results.{Reading, WorkerResult, collect_worker}
use replaybook.Matrix.Workers.{
  Phase, running, finished, cancelled, Task, Pool, Event, start, exit, interrupt, is_waiting,
  is_running, launch, start_task, finish_task, exit_task, step, run,
}
use replaybook.Matrix.Workers.Bounds.{
  count_running, count_waiting, count_map-waiting, IsBounded, run-IsBounded, launch-IsBounded,
  exit_task-running,
}

-- Every task is at one of the phases that a run without interruption and exceptions leaves it in.
module _ {F : Type 0} where
  find_phase :
      (p : Phase F → Bool) (ts : List (Task F))
      → 0 < count_if (λ t. p t.phase) ts
      → (i : ℕ) × ((t : Task F) × (get_elem? ts i ≡ some t) × (p t.phase ≡ true))
  find_phase p [] h = elim h [ ]
  find_phase p (t ∷ ts) h = elim (Bool-cases (p t.phase)) [
    | inl here ↦ (0, (t, refl, here))
    | inr there ↦ let (i, rest) = find_phase p ts (ground (arith, there)) in (suc i, rest)
  ]

module _ {F : Type 0} ⦃fl : Floats F⦄ (provider : Option String) where
  enabled_start :
      (pool : Pool F) (i : ℕ) (t : Task F)
      → 0 < pool.permits
      → get_elem? pool.tasks i ≡ some t
      → is_waiting t.phase ≡ true
      → step provider (start i) pool ≢ none
  unfolding step start_task
  enabled_start pool i t p g w e =
      let left : pool.permits ≡ suc (pool.permits - 1) = omega arith in ground (arith, left, g)

  enabled_exit :
      (pool : Pool F) (i : ℕ) (t : Task F) (code : ℤ) (reading : Reading F)
      → get_elem? pool.tasks i ≡ some t
      → is_running t.phase ≡ true
      → step provider (exit i code reading) pool ≢ none
  unfolding step exit_task
  enabled_exit pool i t code reading g w e = ground (arith, g)

  -- No deadlock: while a task waits or runs, either some process is running, and the pool takes its
  -- end whatever it leaves behind, or there is a waiting task that can be started at once.
  pub step_progress :
      (concurrency total : ℕ) (pool : Pool F)
      → 0 < concurrency
      → IsBounded concurrency total pool
      → 0 < count_waiting pool.tasks + count_running pool.tasks
      → ((i : ℕ) × ((code : ℤ) (reading : Reading F)
            → step provider (exit i code reading) pool ≢ none))
        ⊎ ((i : ℕ) × (step provider (start i) pool ≢ none))
  step_progress concurrency total pool c h busy = elim (zero_or_pos (count_running pool.tasks)) [
    | inl idle ↦
        let (i, (t, g, w)) = find_phase is_waiting pool.tasks (omega (arith, idle)) in
        inr (i, enabled_start pool i t (omega (arith, h.permits)) g w)
    | inr some_running ↦
        let (i, (t, g, r)) = find_phase is_running pool.tasks some_running in
        inl (i, λ code reading. enabled_exit pool i t code reading g r)
  ]
    where
      zero_or_pos : (n : ℕ) → (n ≡ 0) ⊎ (0 < n)
      zero_or_pos zero = inl refl
      zero_or_pos (suc n) = inr (omega arith)

  -- No deadlock: with a concurrency above 0, in every pool that a run reaches where a task waits or
  -- runs, either there is a running process, and the pool takes its end whatever it leaves behind, or
  -- there is a waiting task that can be started at once.
  pub run_progress :
      (concurrency : ℕ) (jobs : List Job) (evs : List (Event F)) (pool : Pool F)
      → 0 < concurrency
      → run provider evs (launch concurrency jobs) ≡ some pool
      → 0 < count_waiting pool.tasks + count_running pool.tasks
      → ((i : ℕ) × ((code : ℤ) (reading : Reading F)
            → step provider (exit i code reading) pool ≢ none))
        ⊎ ((i : ℕ) × (step provider (start i) pool ≢ none))
  run_progress concurrency jobs evs pool c e busy =
      step_progress concurrency (length jobs) pool c
        (run-IsBounded provider evs _ pool (launch-IsBounded concurrency jobs) e) busy

  -- What is still to happen: two events for a waiting task, one for a running one.
  abbrev pub to_do : Pool F → ℕ
  to_do pool = 2 * count_waiting pool.tasks + count_running pool.tasks

  abbrev pub is_interrupt : Event F → Bool
  is_interrupt interrupt = true
  is_interrupt _ = false

  start_task-to_do :
      (i : ℕ) (t : Task F) (left : ℕ) (pool pool' : Pool F)
      → get_elem? pool.tasks i ≡ some t
      → start_task i t left pool ≡ some pool'
      → to_do pool' + 1 ≡ to_do pool
  unfolding start_task
  start_task-to_do i t left pool pool' g e =
      let t' : Task F = record t { phase = running } in
      ground (
        arith,
        count_if-set (λ t. is_running t.phase) pool.tasks i t' t g,
        count_if-set (λ t. is_waiting t.phase) pool.tasks i t' t g,
      )

  finish_task-to_do :
      (i : ℕ) (t : Task F) (r : Result (WorkerResult F)) (pool : Pool F)
      → get_elem? pool.tasks i ≡ some t
      → t.phase ≡ running
      → to_do (finish_task i t r pool) + 1 ≡ to_do pool
  unfolding finish_task
  finish_task-to_do i t (ok w) pool g e =
      let t' : Task F = record t { phase = finished w } in
      ground (
        arith,
        count_if-set (λ t. is_running t.phase) pool.tasks i t' t g,
        count_if-set (λ t. is_waiting t.phase) pool.tasks i t' t g,
      )
  finish_task-to_do i t (err x) pool g e =
      let t' : Task F = record t { phase = cancelled } in
      ground (
        arith,
        count_if-set (λ t. is_running t.phase) pool.tasks i t' t g,
        count_if-set (λ t. is_waiting t.phase) pool.tasks i t' t g,
      )

  step-to_do :
      (ev : Event F) (pool pool' : Pool F)
      → is_interrupt ev ≡ false
      → step provider ev pool ≡ some pool'
      → to_do pool' + 1 ≡ to_do pool
  unfolding step
  step-to_do (start i) pool pool' u e = elim (Option-cases (get_elem? pool.tasks i)) [
    | inl g ↦ absurd (ground (arith, g))
    | inr (t, g) ↦ start_task-to_do i t (pool.permits - 1) pool pool' g (ground (arith, g))
  ]
  step-to_do (exit i code reading) pool pool' u e = elim (Option-cases (get_elem? pool.tasks i)) [
    | inl g ↦ absurd (ground (arith, g))
    | inr (t, g) ↦
        let (r, same) =
          exit_task-running provider i t code reading pool pool' (ground (arith, g)) in
        rw (← same) (finish_task-to_do i t (collect_worker t.job provider code reading) pool g r)
  ]
  step-to_do interrupt pool pool' u e = absurd (cc)

  -- Without an interruption every event takes one from what is still to happen.
  pub run-length :
      (evs : List (Event F)) (pool pool' : Pool F)
      → All (λ ev. is_interrupt ev ≡ false) evs
      → run provider evs pool ≡ some pool'
      → length evs + to_do pool' ≡ to_do pool
  unfolding run
  run-length [] pool pool' u e = let same : pool ≡ pool' = ground arith in rw same (omega arith)
  run-length (ev ∷ evs) pool pool' u e = elim (Option-cases (step provider ev pool)) [
    | inl stuck ↦ absurd (ground (arith, stuck))
    | inr (next, s) ↦
        omega
          (arith, step-to_do ev pool next u.0 s, run-length evs next pool' u.1 (ground (arith, s)))
  ]

  -- A run of the pool over `jobs` without an interruption has at most 2 * length jobs events, and it
  -- has that many exactly when no task is waiting or running any more.
  pub run_ends :
      (concurrency : ℕ) (jobs : List Job) (evs : List (Event F)) (pool : Pool F)
      → All (λ ev. is_interrupt ev ≡ false) evs
      → run provider evs (launch concurrency jobs) ≡ some pool
      → (length evs ≤ 2 * length jobs)
        × ((length evs ≡ 2 * length jobs)
            ↔ (count_waiting pool.tasks + count_running pool.tasks ≡ 0))
  run_ends concurrency jobs evs pool u e =
      let total = run-length evs (launch concurrency jobs) pool u e in
      let (r, w, f) = count_map-waiting F jobs in
      let start : to_do (launch concurrency jobs) ≡ 2 * length jobs =
        unfold launch in omega (arith, r, w) in
      (
        omega (arith, total, start),
        ((λ h. omega (arith, total, start)), (λ h. omega (arith, total, start))),
      )
