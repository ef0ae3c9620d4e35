-- ===== src/Matrix/Workers/Returns.antt =====
-- What `run_jobs` of run_host_matrix.py returns: `asyncio.gather` over the worker tasks.
use replaybook.Prelude.{
  ℕ, ◌-◌, ◌≡◌, refl, sym, ◌∙◌, ◌⊎◌, inl, inr, String, false, Option, some, List, [], ◌∷◌, map,
  map-set, All-set, get_elem?, set, arith, Option-cases, All, subst, ap₂,
}
use replaybook.Prelude.Int.{ℤ}
use replaybook.Prelude.Result.{Result, ok, err}
use replaybook.Json.Floats.{Floats}
use replaybook.Matrix.Jobs.{Job}
use replaybook.Matrix.Results.{Reading, WorkerResult, collect_worker}
use replaybook.Matrix.Results.Collected.{IsCollected, collect_worker-IsCollected}
use replaybook.Matrix.Workers.{
  Phase, waiting, running, finished, cancelled, Task, Pool, Event, start, exit, interrupt,
  is_finished, launch, start_task, cancel_task, interrupt_all, finish_task, step, run, gather,
}
use replaybook.Matrix.Workers.Bounds.{exit_task-running}

module _ {F : Type 0} ⦃fl : Floats F⦄ (provider : Option String) where
  -- A finished task holds a worker result for its own job.
  abbrev IsOwn : Task F → Type 0
  IsOwn t =
      (w : WorkerResult F) → t.phase ≡ finished w → (w.job ≡ t.job) × IsCollected t.job provider w

  record IsFaithful (jobs : List Job) (pool : Pool F) : Type 0 where
    jobs_kept : map (λ t. t.job) pool.tasks ≡ jobs
    own : All IsOwn pool.tasks

  launch-IsOwn :
      (f : Job → Task F)
      → ((j : Job) → (f j).phase ≡ waiting)
      → (jobs : List Job) → All IsOwn (map f jobs)
  launch-IsOwn f e [] = tt
  launch-IsOwn f e (j ∷ jobs) = ((λ w h. absurd (cc (e j))), launch-IsOwn f e jobs)

  launch-jobs :
      (f : Job → Task F)
      → ((j : Job) → (f j).job ≡ j)
      → (jobs : List Job) → map (λ t. t.job) (map f jobs) ≡ jobs
  launch-jobs f e [] = refl
  launch-jobs f e (j ∷ jobs) = ap₂ (λ k l. k ∷ l) (e j) (launch-jobs f e jobs)

  launch-IsFaithful : (c : ℕ) (jobs : List Job) → IsFaithful jobs (launch c jobs)
  unfolding launch
  launch-IsFaithful c jobs = record {
    jobs_kept = launch-jobs _ (λ j. refl) jobs;
    own = launch-IsOwn _ (λ j. refl) jobs;
  }

  write-IsFaithful :
      {jobs : List Job} (pool : Pool F) (i : ℕ) (t t' : Task F)
      → IsFaithful jobs pool
      → get_elem? pool.tasks i ≡ some t
      → t'.job ≡ t.job
      → IsOwn t'
      → (map (λ t. t.job) (set pool.tasks i t') ≡ jobs) × All IsOwn (set pool.tasks i t')
  write-IsFaithful pool i t t' h g e own = (
    map-set (λ t. t.job) pool.tasks i t' t g e ∙ h.jobs_kept,
    All-set IsOwn pool.tasks i t' h.own own,
  )

  cancel-jobs : (ts : List (Task F)) → map (λ t. t.job) (map cancel_task ts) ≡ map (λ t. t.job) ts
  unfolding cancel_task
  cancel-jobs [] = refl
  cancel-jobs (t ∷ ts) = ground (arith, cancel-jobs ts)

  cancel_task-cases : (t : Task F) → (cancel_task t ≡ t) ⊎ ((cancel_task t).phase ≡ cancelled)
  unfolding cancel_task
  cancel_task-cases t = ground arith

  cancel_task-IsOwn : (t : Task F) → IsOwn t → IsOwn (cancel_task t)
  cancel_task-IsOwn t h = elim (cancel_task-cases t) [
    | inl same ↦ subst IsOwn (sym same) h
    | inr gone ↦ λ w e. absurd (cc)
  ]

  cancel-IsOwn : (ts : List (Task F)) → All IsOwn ts → All IsOwn (map cancel_task ts)
  cancel-IsOwn [] h = tt
  cancel-IsOwn (t ∷ ts) h = (cancel_task-IsOwn t h.0, cancel-IsOwn ts h.1)

  finish_task-IsFaithful :
      {jobs : List Job} (i : ℕ) (t : Task F) (code : ℤ) (reading : Reading F) (pool : Pool F)
      (r : Result (WorkerResult F))
      → collect_worker t.job provider code reading ≡ r
      → IsFaithful jobs pool
      → get_elem? pool.tasks i ≡ some t
      → IsFaithful jobs (finish_task i t r pool)
  unfolding finish_task
  finish_task-IsFaithful i t code reading pool (ok w) e h g =
      let (same, _, c) = collect_worker-IsCollected t.job provider code reading w e in
      let (kept, own) =
        write-IsFaithful pool i t (record t { phase = finished w }) h g refl
          (λ w' e'.
            let eq : w ≡ w' = ground arith in
            subst (λ v. (v.job ≡ t.job) × IsCollected t.job provider v) eq (same, c)) in
      record { jobs_kept = kept; own = own }
  finish_task-IsFaithful i t code reading pool (err x) e h g =
      let (kept, own) =
        write-IsFaithful pool i t (record t { phase = cancelled }) h g refl
          (λ w' e'. absurd (cc)) in
      record { jobs_kept = kept; own = own }

  start_task-IsFaithful :
      {jobs : List Job} (i : ℕ) (t : Task F) (left : ℕ) (pool pool' : Pool F)
      → IsFaithful jobs pool
      → get_elem? pool.tasks i ≡ some t
      → start_task i t left pool ≡ some pool'
      → IsFaithful jobs pool'
  unfolding start_task
  start_task-IsFaithful {jobs} i t left pool pool' h g e =
      let (kept, own) =
        write-IsFaithful pool i t (record t { phase = running }) h g refl (λ w' e'. absurd (cc)) in
      let same : set pool.tasks i (record t { phase = running }) ≡ pool'.tasks = ground arith in
      record {
        jobs_kept = subst (λ l. map (λ (t : Task F). t.job) l ≡ jobs) same kept;
        own = subst (All IsOwn) same own;
      }

  step-IsFaithful :
      {jobs : List Job} (ev : Event F) (pool pool' : Pool F)
      → IsFaithful jobs pool
      → step provider ev pool ≡ some pool'
      → IsFaithful jobs pool'
  unfolding step
  step-IsFaithful (start i) pool pool' h e = elim (Option-cases (get_elem? pool.tasks i)) [
    | inl g ↦ absurd (ground (arith, g))
    | inr (t, g) ↦ start_task-IsFaithful i t (pool.permits - 1) pool pool' h g (ground (arith, g))
  ]
  step-IsFaithful (exit i code reading) pool pool' h e =
      elim (Option-cases (get_elem? pool.tasks i)) [
        | inl g ↦ absurd (ground (arith, g))
        | inr (t, g) ↦
            let (r, same) =
              exit_task-running provider i t code reading pool pool' (ground (arith, g)) in
            subst (IsFaithful _) same (
              finish_task-IsFaithful i t code reading pool
                (collect_worker t.job provider code reading) refl h g)
      ]
  step-IsFaithful interrupt pool pool' h e =
      let same : interrupt_all pool ≡ pool' = ground arith in
      subst (IsFaithful _) same (
        unfold interrupt_all in
        record {
          jobs_kept = cancel-jobs pool.tasks ∙ h.jobs_kept;
          own = cancel-IsOwn pool.tasks h.own;
        })

  run-IsFaithful :
      {jobs : List Job} (evs : List (Event F)) (pool pool' : Pool F)
      → IsFaithful jobs pool
      → run provider evs pool ≡ some pool'
      → IsFaithful jobs pool'
  unfolding run
  run-IsFaithful [] pool pool' h e =
      let same : pool ≡ pool' = ground arith in subst (IsFaithful _) same h
  run-IsFaithful (ev ∷ evs) pool pool' h e = elim (Option-cases (step provider ev pool)) [
    | inl stuck ↦ absurd (ground (arith, stuck))
    | inr (next, s) ↦
        run-IsFaithful evs next pool' (step-IsFaithful ev pool next h s) (ground (arith, s))
  ]

  finished_cases :
      (p : Phase F) → ((w : WorkerResult F) × (p ≡ finished w)) ⊎ (is_finished p ≡ false)
  finished_cases (finished w) = inl (w, refl)
  finished_cases waiting = inr refl
  finished_cases _ = inr refl

  gather-cons :
      (t : Task F) (ts : List (Task F)) (ws : List (WorkerResult F))
      → gather (t ∷ ts) ≡ some ws
      → (w : WorkerResult F) × (ws' : List (WorkerResult F)) × (t.phase ≡ finished w)
        × (gather ts ≡ some ws')
        × (w ∷ ws' ≡ ws)
  unfolding gather
  gather-cons t ts ws e = elim (finished_cases t.phase) [
    | inl (w, f) ↦ elim (Option-cases (gather ts)) [
      | inl g ↦ absurd (ground (arith, f, g))
      | inr (ws', g) ↦ (w, ws', f, g, ground (arith, f, g))
    ]
    | inr f ↦ absurd (ground (arith, f))
  ]

  gather-own :
      (ts : List (Task F)) (ws : List (WorkerResult F))
      → All IsOwn ts
      → gather ts ≡ some ws
      → (map (λ w. w.job) ws ≡ map (λ t. t.job) ts) × All (λ w. IsCollected w.job provider w) ws
  gather-own [] ws h e =
      let same : [] ≡ ws = unfold gather in ground arith in
      subst
        (λ ws.
          (map (λ (w : WorkerResult F). w.job) ws ≡ [])
          × All (λ w. IsCollected w.job provider w) ws)
        same (refl, tt)
  gather-own (t ∷ ts) ws h e =
      let (w, ws', f, g, same) = gather-cons t ts ws e in
      let (job, own) = h.0 w f in
      let (jobs, owns) = gather-own ts ws' h.1 g in
      subst
        (λ ws.
          (map (λ (w : WorkerResult F). w.job) ws ≡ map (λ (t : Task F). t.job) (t ∷ ts))
          × All (λ w. IsCollected w.job provider w) ws)
        same
        (ap₂ (λ k l. k ∷ l) job jobs, (subst (λ j. IsCollected j provider w) (sym job) own, owns))

  -- Whatever the order in which the workers start and end, the list that `run_jobs` returns has one
  -- worker result for each job, in the order of the jobs, and each is a scorable result that carries
  -- the identity of its job or an error text.
  pub gather-jobs :
      (concurrency : ℕ) (jobs : List Job) (evs : List (Event F)) (pool : Pool F)
      (ws : List (WorkerResult F))
      → run provider evs (launch concurrency jobs) ≡ some pool
      → gather pool.tasks ≡ some ws
      → (map (λ w. w.job) ws ≡ jobs) × All (λ w. IsCollected w.job provider w) ws
  gather-jobs concurrency jobs evs pool ws e g =
      let h = run-IsFaithful evs _ pool (launch-IsFaithful concurrency jobs) e in
      let (same, collected) = gather-own pool.tasks ws h.own g in (same ∙ h.jobs_kept, collected)
