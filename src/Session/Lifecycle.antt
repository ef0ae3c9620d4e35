-- ===== src/Session/Lifecycle.antt =====
-- The life of a session: `launch_worker` and `run_session` of integrations/host/benchmark_session.py as
-- a step relation on what they share, the files status.json and worker.json and the two locks. A
-- process is killed at any time, and then its locks are free; the steps interleave as they like. The
-- matrix that a worker has started is a process of its own: it lives on behind a worker that is killed.
pub mod Exclusive
pub mod Matrices
use replaybook.Prelude.{
  ℕ, suc, ◌≡◌, String, Bool, true, false, Option, none, some, nat_beq, if◌then◌else◌,
}

-- The states that are written to status.json.
pub data Status : Type 0 where
  starting resuming queued running completed incomplete failed : Status

-- Where a worker process is: started, with run.lock, or with its matrix running.
pub data Stage : Type 0 where
  started locked working : Stage

pub record Process : Type 0 where
  pub stage : Stage
  pub resume : Bool

-- Who holds launch.lock: nobody, a launcher that has written the status, or one that has started the
-- worker with a process id.
pub data Launcher : Type 0 where
  idle : Launcher
  announced : Bool → Launcher
  spawned : ℕ → Launcher

-- An id stands for a process id with its start time, so no two processes have the same; `fresh` is
-- the next one. `worker` is the content of worker.json, `matrices` says of which workers the matrix
-- process lives, and `killed` which workers have been killed.
pub record System : Type 0 where
  pub status : Status
  pub worker : Option ℕ
  pub launcher : Launcher
  pub run_lock : Option ℕ
  pub processes : ℕ → Option Process
  pub fresh : ℕ
  pub has_matrix : Bool
  pub matrices : ℕ → Bool
  pub killed : ℕ → Bool

abbrev pub set_at : ℕ → Option Process → (ℕ → Option Process) → ℕ → Option Process
set_at pid v processes n = if nat_beq n pid then v else processes n

abbrev pub set_flag : ℕ → Bool → (ℕ → Bool) → ℕ → Bool
set_flag pid v flags n = if nat_beq n pid then v else flags n

-- `worker_alive`: the process of worker.json lives.
abbrev pub worker_alive : System → Bool
worker_alive s = elim s.worker [
  | none ↦ false
  | some pid ↦ elim (s.processes pid) [ none ↦ false | some p ↦ true ]
]

abbrev pub announced_status : Bool → Status
announced_status resume = if resume then resuming else starting

-- `final if final in {"completed", "incomplete"} else "failed"`, for the state of the last report.
abbrev pub final_status : Option Status → Status
final_status (some completed) = completed
final_status (some incomplete) = incomplete
final_status _ = failed

-- The run lock behind the end of a process.
abbrev pub release : ℕ → Option ℕ → Option ℕ
release pid none = none
release pid (some holder) = if nat_beq holder pid then none else some holder

-- A process ends; the locks it holds are free.
unfoldable pub leave : ℕ → Status → System → System
leave pid status s = record s {
  status = status;
  run_lock = release pid s.run_lock;
  processes = set_at pid none s.processes;
}

abbrev pub first_state : System
first_state = record {
  status = starting;
  worker = none;
  launcher = idle;
  run_lock = none;
  processes = λ n. none;
  fresh = 0;
  has_matrix = false;
  matrices = λ n. false;
  killed = λ n. false;
}

pub data Step : System → System → Type 0 where
  -- `launch_worker` takes launch.lock, passes its two guards and writes the status.
  announce :
      {s : System} (resume : Bool)
      → s.launcher ≡ idle
      → worker_alive s ≡ false
      → (resume ≡ true → s.has_matrix ≡ true)
      → Step s (record s { launcher = announced resume; status = announced_status resume })
  -- `posix_spawn`
  spawn :
      {s : System} {resume : Bool}
      → s.launcher ≡ announced resume
      → Step s (record s {
        launcher = spawned s.fresh;
        processes = set_at s.fresh (some (record { stage = started; resume = resume })) s.processes;
        fresh = suc s.fresh;
      })
  -- The launcher writes worker.json and returns.
  register :
      {s : System} {pid : ℕ}
      → s.launcher ≡ spawned pid
      → Step s (record s { launcher = idle; worker = some pid })
  -- The launcher is killed.
  give_up : {s : System} → Step s (record s { launcher = idle })
  -- `run_session` takes run.lock.
  lock :
      {s : System} {p : Process} (pid : ℕ)
      → s.processes pid ≡ some p
      → p.stage ≡ started
      → s.run_lock ≡ none
      → Step s (record s {
        run_lock = some pid;
        processes = set_at pid (some (record p { stage = locked })) s.processes;
      })
  -- Another process has run.lock: it returns 1 and writes nothing.
  refuse :
      {s : System} {p : Process} {holder : ℕ} (pid : ℕ)
      → s.processes pid ≡ some p
      → p.stage ≡ started
      → s.run_lock ≡ some holder
      → Step s (leave pid s.status s)
  -- It waits for the session that it comes after; a resumed one does not.
  queue :
      {s : System} {p : Process} (pid : ℕ)
      → s.processes pid ≡ some p
      → p.stage ≡ locked
      → p.resume ≡ false
      → Step s (record s { status = queued })
  -- It writes the status and starts the matrix.
  begin :
      {s : System} {p : Process} (pid : ℕ)
      → s.processes pid ≡ some p
      → p.stage ≡ locked
      → Step s (record s {
        status = running;
        processes = set_at pid (some (record p { stage = working })) s.processes;
        matrices = set_flag pid true s.matrices;
      })
  -- A matrix writes benchmark.json.
  prepare : {s : System} (pid : ℕ) → s.matrices pid ≡ true → Step s (record s { has_matrix = true })
  -- The process of a matrix ends.
  end_matrix :
      {s : System} (pid : ℕ)
      → s.matrices pid ≡ true
      → Step s (record s { matrices = set_flag pid false s.matrices })
  -- `subprocess.run` returns behind the end of the matrix; the worker ends with a last report.
  finish :
      {s : System} {p : Process} (pid : ℕ) (report : Option Status)
      → s.processes pid ≡ some p
      → p.stage ≡ working
      → s.matrices pid ≡ false
      → Step s (leave pid (final_status report) s)
  -- An exception behind run.lock.
  fail_locked :
      {s : System} {p : Process} (pid : ℕ)
      → s.processes pid ≡ some p
      → p.stage ≡ locked
      → Step s (leave pid failed s)
  -- `subprocess.run` ends the matrix where an exception passes through it.
  fail_working :
      {s : System} {p : Process} (pid : ℕ)
      → s.processes pid ≡ some p
      → p.stage ≡ working
      → Step s (record (leave pid failed s) { matrices = set_flag pid false s.matrices })
  -- A worker is killed and writes nothing; its matrix lives on.
  kill :
      {s : System} {p : Process} (pid : ℕ)
      → s.processes pid ≡ some p
      → Step s (record (leave pid s.status s) { killed = set_flag pid true s.killed })

pub data Reach (s : System) : System → Type 0 where
  here : Reach s s
  next : {t u : System} → Reach s t → Step t u → Reach s u
