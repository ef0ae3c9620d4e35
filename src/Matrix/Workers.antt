-- ===== src/Matrix/Workers.antt =====
-- The worker pool of `run_jobs` and `run_worker` in integrations/host/run_host_matrix.py: one task for
-- each job, a semaphore with `concurrency` permits and the two counters of `Progress`. The event loop
-- and the processes choose the events, so a run is a list of events that the pool allows.
pub mod Bounds
pub mod Outcome
pub mod Returns
use replaybook.Prelude.{
  ℕ, zero, suc, ◌+◌, ◌-◌, ◌*◌, String, Bool, true, false, not, ◌&&◌, ◌||◌, Option, none, some, List,
  [], ◌∷◌, ◌++◌, map, if◌then◌else◌, ltb, length, count_if, get_elem?, set,
}
use replaybook.Prelude.Int.{ℤ}
use replaybook.Prelude.Result.{Result, ok, err, Error}
use replaybook.Json.{Value}
use replaybook.Json.Floats.{Floats}
use replaybook.Matrix.Jobs.{Job}
use replaybook.Matrix.Results.{Reading, WorkerResult, collect_worker}

-- Where the task of a job is: before its permit, with its process running, done, or ended by a
-- cancellation or by an exception of its own.
pub data Phase (F : Type 0) : Type 0 where
  waiting : Phase F
  running : Phase F
  finished : WorkerResult F → Phase F
  cancelled : Phase F

pub record Task (F : Type 0) : Type 0 where
  pub job : Job
  pub phase : Phase F

-- `Progress`, but for its constant total.
pub record Progress : Type 0 where
  pub started : ℕ
  pub completed : ℕ

pub record Pool (F : Type 0) : Type 0 where
  pub tasks : List (Task F)
  pub permits : ℕ
  pub progress : Progress

-- What happens next: the task at an index gets a permit, the process of the task at an index ends
-- with an exit code and leaves a result file, or the whole run is interrupted.
pub data Event (F : Type 0) : Type 0 where
  start : ℕ → Event F
  exit : ℕ → ℤ → Reading F → Event F
  interrupt : Event F

module _ {F : Type 0} where
  abbrev pub is_waiting : Phase F → Bool
  is_waiting waiting = true
  is_waiting _ = false

  abbrev pub is_running : Phase F → Bool
  is_running running = true
  is_running _ = false

  abbrev pub is_finished : Phase F → Bool
  is_finished (finished w) = true
  is_finished _ = false

  -- `asyncio.create_task` for every job, with `Semaphore(concurrency)` and `Progress(total=len(jobs))`.
  unfoldable pub launch : ℕ → List Job → Pool F
  launch concurrency jobs = record {
    tasks = map (λ j. record { job = j; phase = waiting }) jobs;
    permits = concurrency;
    progress = record { started = 0; completed = 0 };
  }

  -- A task that is not done is cancelled; the process of a running one is terminated.
  unfoldable pub cancel_task : Task F → Task F
  cancel_task t = elim t.phase [
    | waiting ↦ record t { phase = cancelled }
    | running ↦ record t { phase = cancelled }
    | finished w ↦ t
    | cancelled ↦ t
  ]

  -- `started = progress.start()` once the task has its permit.
  unfoldable pub start_task : ℕ → Task F → ℕ → Pool F → Option (Pool F)
  start_task i t left pool = elim t.phase [
    | waiting ↦ some (record {
      tasks = set pool.tasks i (record t { phase = running });
      permits = left;
      progress = record pool.progress { started = pool.progress.started + 1 };
    })
    | _ ↦ none
  ]

  -- `for task in tasks: task.cancel()`. A running process is terminated, and its permit comes back.
  unfoldable pub interrupt_all : Pool F → Pool F
  unfolding cancel_task
  interrupt_all pool = record pool {
    tasks = map cancel_task pool.tasks;
    permits = pool.permits + count_if (λ t. is_running t.phase) pool.tasks;
  }

module _ {F : Type 0} ⦃fl : Floats F⦄ where
  -- The end of `run_worker`: an exception out of `load_result` ends the task with no result and
  -- leaves `completed` alone; the permit comes back in both cases.
  unfoldable pub finish_task : ℕ → Task F → Result (WorkerResult F) → Pool F → Pool F
  finish_task i t (ok w) pool = record {
    tasks = set pool.tasks i (record t { phase = finished w });
    permits = pool.permits + 1;
    progress = record pool.progress { completed = pool.progress.completed + 1 };
  }
  finish_task i t (err e) pool = record pool {
    tasks = set pool.tasks i (record t { phase = cancelled });
    permits = pool.permits + 1;
  }

  unfoldable pub exit_task : Option String → ℕ → Task F → ℤ → Reading F → Pool F → Option (Pool F)
  unfolding finish_task
  exit_task provider i t exit_code reading pool = elim t.phase [
    | running ↦ some (finish_task i t (collect_worker t.job provider exit_code reading) pool)
    | _ ↦ none
  ]

  -- One event, where the pool allows it.
  unfoldable pub step : Option String → Event F → Pool F → Option (Pool F)
  unfolding start_task exit_task interrupt_all
  step provider (start i) pool = elim pool.permits [
    | zero ↦ none
    | suc left ↦ elim (get_elem? pool.tasks i) [ none ↦ none | some t ↦ start_task i t left pool ]
  ]
  step provider (exit i exit_code reading) pool = elim (get_elem? pool.tasks i) [
    | none ↦ none
    | some t ↦ exit_task provider i t exit_code reading pool
  ]
  step provider interrupt pool = some (interrupt_all pool)

  -- A whole run: every event has to be allowed where it stands.
  unfoldable pub run : Option String → List (Event F) → Pool F → Option (Pool F)
  run provider [] pool = some pool
  run provider (ev ∷ evs) pool = elim (step provider ev pool) [
    | none ↦ none
    | some pool' ↦ run provider evs pool'
  ]

-- `asyncio.gather(*tasks)`: the results in the order of the jobs, once every task has returned one.
unfoldable pub gather : {F : Type 0} → List (Task F) → Option (List (WorkerResult F))
gather [] = some []
gather (t ∷ ts) =
    let rest = gather ts in
    elim t.phase [ finished w ↦ elim rest [ none ↦ none | some ws ↦ some (w ∷ ws) ] | _ ↦ none ]
