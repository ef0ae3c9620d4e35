-- ===== src/Session/Lifecycle/Exclusive.antt =====
-- What holds in every state that a session of benchmark_session.py reaches.
use replaybook.Prelude.{
  ℕ, suc, ◌≡◌, refl, sym, ap, ◌∙◌, subst, inl, inr, ◌⊎◌, Bool, true, false, Option, none, some,
  nat_beq, arith, Bool-cases,
}
use replaybook.Session.Lifecycle.{
  Status, running, failed, Stage, started, locked, working, Process, announced, spawned, System,
  set_at, set_flag, worker_alive, announced_status, release, leave, first_state, Step, announce,
  spawn, register, give_up, lock, refuse, queue, begin, prepare, end_matrix, finish, fail_locked,
  fail_working, kill, Reach, here, next,
}

-- The process is behind the test of run.lock.
abbrev pub is_behind_lock : Stage → Bool
is_behind_lock started = false
is_behind_lock _ = true

-- worker.json names the process, or the launcher that has started it is about to.
abbrev pub IsRecorded : System → ℕ → Type 0
IsRecorded s pid = (s.worker ≡ some pid) ⊎ (s.launcher ≡ spawned pid)

pub record IsSound (s : System) : Type 0 where
  pub holds :
      (pid : ℕ) (p : Process)
      → s.processes pid ≡ some p
      → is_behind_lock p.stage ≡ true
      → s.run_lock ≡ some pid
  pub shown :
      (pid : ℕ) (p : Process)
      → s.processes pid ≡ some p
      → p.stage ≡ working
      → IsRecorded s pid
      → s.status ≡ running

-- A process of a changed table is the changed one or one of before.
pub set_at-cases :
    (processes : ℕ → Option Process) (pid n : ℕ) (v : Option Process) (p : Process)
    → set_at pid v processes n ≡ some p
    → ((n ≡ pid) × (v ≡ some p)) ⊎ ((nat_beq n pid ≡ false) × (processes n ≡ some p))
set_at-cases processes pid n v p h = elim (Bool-cases (nat_beq n pid)) [
  | inl same ↦ inl (ground (arith, same), rw same at h)
  | inr other ↦ inr (other, rw other at h)
]

release-other :
    (pid n : ℕ) (holder : Option ℕ)
    → nat_beq n pid ≡ false
    → holder ≡ some n
    → release pid holder ≡ some n
release-other pid n holder h k = rw (k, h) refl

-- Two processes behind the lock are the same.
pub same_holder :
    (s : System)
    → IsSound s
    → (m n : ℕ) (p q : Process) → s.processes m ≡ some p
    → is_behind_lock p.stage ≡ true
    → s.processes n ≡ some q
    → is_behind_lock q.stage ≡ true
    → (m ≡ n) × (p ≡ q)
same_holder s i m n p q h a k b =
    let at_m = i.holds m p h a in
    let at_n = i.holds n q k b in
    let same : m ≡ n = cc in
    let found : s.processes n ≡ some p = subst (λ x. s.processes x ≡ some p) same h in (same, cc)

-- The end of a process that writes a status; another working process would need run.lock as well.
leave-IsSound :
    (s : System) (pid : ℕ) (status : Status)
    → IsSound s
    → ((n : ℕ) (p : Process)
        → nat_beq n pid ≡ false
        → s.processes n ≡ some p
        → p.stage ≡ working
        → IsRecorded s n
        → status ≡ running)
    → IsSound (leave pid status s)
unfolding leave
leave-IsSound s pid status i writes = record {
  holds = λ n p h a. elim (set_at-cases s.processes pid n none p h) [
    | inl (same, gone) ↦ absurd cc
    | inr (other, found) ↦ release-other pid n s.run_lock other (i.holds n p found a)
  ];
  shown = λ n p h a r. elim (set_at-cases s.processes pid n none p h) [
    | inl (same, gone) ↦ absurd cc
    | inr (other, found) ↦ writes n p other found a r
  ];
}

some_stage : (p q : Process) → some p ≡ some q → p.stage ≡ q.stage
some_stage p q e = let same : p ≡ q = cc in ap (λ (r : Process). r.stage) same

locked-is_behind_lock : (stage : Stage) → stage ≡ locked → is_behind_lock stage ≡ true
locked-is_behind_lock stage h = ap is_behind_lock h

pub working-is_behind_lock : (stage : Stage) → stage ≡ working → is_behind_lock stage ≡ true
working-is_behind_lock stage h = ap is_behind_lock h

-- No second process works beside one that is behind the lock.
alone :
    (s : System) (pid : ℕ) (p : Process)
    → IsSound s
    → s.processes pid ≡ some p
    → is_behind_lock p.stage ≡ true
    → (n : ℕ) (q : Process) → nat_beq n pid ≡ false
    → s.processes n ≡ some q
    → q.stage ≡ working
    → ⊥
alone s pid p i h a n q other k w =
    let (same, _) = same_holder s i pid n p q h a k (working-is_behind_lock q.stage w) in
    absurd (ground (arith, same, other))

announce-IsSound :
    (s : System) (resume : Bool)
    → IsSound s
    → worker_alive s ≡ false
    → IsSound (record s { launcher = announced resume; status = announced_status resume })
announce-IsSound s resume i dead = record {
  holds = i.holds;
  shown = λ n p h a r. elim r [
    | inl e ↦ absurd (cc (rw (worker_alive, e, h) at dead))
    | inr e ↦ absurd cc
  ];
}

spawn-IsSound :
    (s : System) (p : Process)
    → IsSound s
    → p.stage ≡ started
    → IsSound (record s {
      launcher = spawned s.fresh;
      processes = set_at s.fresh (some p) s.processes;
      fresh = suc s.fresh;
    })
spawn-IsSound s p i new = record {
  holds = λ n q h a. elim (set_at-cases s.processes s.fresh n (some p) q h) [
    | inl (same, e) ↦ absurd (cc (rw (sym (some_stage p q e) ∙ new) at a))
    | inr (other, found) ↦ i.holds n q found a
  ];
  shown = λ n q h a r. elim (set_at-cases s.processes s.fresh n (some p) q h) [
    | inl (same, e) ↦ let stage = some_stage p q e in absurd cc
    | inr (other, found) ↦ elim r [
      | inl e ↦ i.shown n q found a (inl e)
      | inr e ↦ let same : s.fresh ≡ n = cc in absurd (ground (arith, same, other))
    ]
  ];
}

-- A process at a stage, in place of the one with its id.
move-IsSound :
    (s : System) (pid : ℕ) (p : Process) (status : Status)
    → IsSound s
    → (s.run_lock ≡ none) ⊎ (s.run_lock ≡ some pid)
    → ((p.stage ≡ working) → status ≡ running)
    → IsSound (record s {
      status = status;
      run_lock = some pid;
      processes = set_at pid (some p) s.processes;
    })
move-IsSound s pid p status i free shows = record {
  holds = λ n q h a. elim (set_at-cases s.processes pid n (some p) q h) [
    | inl (same, e) ↦ ap some (sym same)
    | inr (other, found) ↦ elim free [
      | inl none_held ↦ let held = i.holds n q found a in absurd cc
      | inr held_here ↦ let held = i.holds n q found a in sym held_here ∙ held
    ]
  ];
  shown = λ n q h a r. elim (set_at-cases s.processes pid n (some p) q h) [
    | inl (same, e) ↦ shows (some_stage p q e ∙ a)
    | inr (other, found) ↦ elim free [
      | inl none_held ↦ let held = i.holds n q found (working-is_behind_lock q.stage a) in absurd cc
      | inr held_here ↦
          let held = i.holds n q found (working-is_behind_lock q.stage a) in
          let same : n ≡ pid = cc in absurd (ground (arith, same, other))
    ]
  ];
}

-- A worker that ends while it is behind the lock leaves no other one that works.
end-IsSound :
    (s : System) (pid : ℕ) (p : Process) (status : Status)
    → IsSound s
    → s.processes pid ≡ some p
    → is_behind_lock p.stage ≡ true
    → IsSound (leave pid status s)
end-IsSound s pid p status i h a =
    leave-IsSound s pid status i
      (λ n q other found w r. absurd (alone s pid p i h a n q other found w))

Step-IsSound : {s t : System} → Step s t → IsSound s → IsSound t
Step-IsSound {s} (announce resume idle_lock dead saved) i = announce-IsSound s resume i dead
Step-IsSound {s} (spawn {resume = resume} h) i =
    spawn-IsSound s (record { stage = started; resume = resume }) i refl
Step-IsSound (register {pid = pid} h) i = record {
  holds = i.holds;
  shown = λ n p found a r. elim r [
    | inl e ↦ i.shown n p found a (inr (h ∙ ap spawned cc))
    | inr e ↦ absurd cc
  ];
}
Step-IsSound give_up i = record {
  holds = i.holds;
  shown = λ n p found a r. elim r [ inl e ↦ i.shown n p found a (inl e) | inr e ↦ absurd cc ];
}
Step-IsSound {s} (lock {p = p} pid h stage free) i =
    move-IsSound s pid (record p { stage = locked }) s.status i (inl free) (λ k. absurd cc)
Step-IsSound {s} (refuse pid h stage held) i =
    leave-IsSound s pid s.status i (λ n p other found w r. i.shown n p found w r)
Step-IsSound {s} (queue {p = p} pid h stage fresh_run) i = record {
  holds = i.holds;
  shown = λ n q found a r.
      let (_, same) =
        same_holder s i pid n p q h (locked-is_behind_lock p.stage stage) found
          (working-is_behind_lock q.stage a) in
      absurd cc;
}
Step-IsSound {s} (begin {p = p} pid h stage) i =
    let held = i.holds pid p h (locked-is_behind_lock p.stage stage) in
    subst
      (λ l. IsSound (record s {
        status = running;
        run_lock = l;
        processes = set_at pid (some (record p { stage = working })) s.processes;
        matrices = set_flag pid true s.matrices;
      }))
      (sym held)
      (let moved =
          move-IsSound s pid (record p { stage = working }) running i (inr held) (λ k. refl) in
        record { holds = moved.holds; shown = moved.shown })
Step-IsSound (prepare pid h) i = record { holds = i.holds; shown = i.shown }
Step-IsSound (end_matrix pid h) i = record { holds = i.holds; shown = i.shown }
Step-IsSound {s} (finish {p = p} pid report h stage ended) i =
    end-IsSound s pid p _ i h (working-is_behind_lock p.stage stage)
Step-IsSound {s} (fail_locked {p = p} pid h stage) i =
    end-IsSound s pid p failed i h (locked-is_behind_lock p.stage stage)
Step-IsSound {s} (fail_working {p = p} pid h stage) i =
    let ended = end-IsSound s pid p failed i h (working-is_behind_lock p.stage stage) in
    record { holds = ended.holds; shown = ended.shown }
Step-IsSound {s} (kill pid h) i =
    let gone = leave-IsSound s pid s.status i (λ n p other found w r. i.shown n p found w r) in
    record { holds = gone.holds; shown = gone.shown }

first-IsSound : IsSound first_state
first-IsSound = record { holds = λ n p h a. absurd cc; shown = λ n p h a r. absurd cc }

-- In every state that a session reaches, a worker that is behind run.lock holds it, and while the worker
-- that worker.json names, or is about to name, runs its matrix, status.json says running.
pub Reach-IsSound : {s : System} → Reach first_state s → IsSound s
Reach-IsSound here = first-IsSound
Reach-IsSound (next r step) = Step-IsSound step (Reach-IsSound r)
