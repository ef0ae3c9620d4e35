-- ===== src/Session/Lifecycle/Matrices.antt =====
-- The matrix processes of a session of benchmark_session.py.
use replaybook.Prelude.{
  ℕ, suc, ◌<◌, ◌≡◌, refl, sym, ap, ◌∙◌, subst, inl, inr, Bool, true, false, Option, none, some,
  nat_beq, arith, Bool-cases,
}
use replaybook.Session.Lifecycle.{
  Stage, started, locked, working, Process, System, set_at, set_flag, leave, first_state, Step,
  announce, spawn, register, give_up, lock, refuse, queue, begin, prepare, end_matrix, finish,
  fail_locked, fail_working, kill, Reach, here, next,
}
use replaybook.Session.Lifecycle.Exclusive.{
  Reach-IsSound, set_at-cases, same_holder, working-is_behind_lock,
}

abbrev IsWorking : (ℕ → Option Process) → ℕ → Type 0
IsWorking processes n = (p : Process) × (processes n ≡ some p) × (p.stage ≡ working)

-- A matrix lives while its worker works, or behind one that was killed; ids from `fresh` on are new.
record IsOwned (processes : ℕ → Option Process) (matrices killed : ℕ → Bool) (fresh : ℕ)
    : Type 0 where
  owned : (n : ℕ) → matrices n ≡ true → killed n ≡ false → IsWorking processes n
  below : (n : ℕ) (p : Process) → processes n ≡ some p → n < fresh
  new : (n : ℕ) → matrices n ≡ true → n < fresh

abbrev AllOwned : System → Type 0
AllOwned s = IsOwned s.processes s.matrices s.killed s.fresh

set_flag-true :
    (pid n : ℕ) (flags : ℕ → Bool)
    → set_flag pid false flags n ≡ true
    → (nat_beq n pid ≡ false) × (flags n ≡ true)
set_flag-true pid n flags h = elim (Bool-cases (nat_beq n pid)) [
  | inl same ↦ absurd (cc (rw same at h))
  | inr other ↦ (other, rw other at h)
]

set_flag-false :
    (pid n : ℕ) (flags : ℕ → Bool)
    → set_flag pid true flags n ≡ false
    → (nat_beq n pid ≡ false) × (flags n ≡ false)
set_flag-false pid n flags h = elim (Bool-cases (nat_beq n pid)) [
  | inl same ↦ absurd (cc (rw same at h))
  | inr other ↦ (other, rw other at h)
]

ended_elsewhere :
    (matrices : ℕ → Bool) (pid n : ℕ)
    → matrices pid ≡ false
    → matrices n ≡ true
    → nat_beq n pid ≡ false
ended_elsewhere matrices pid n h k = elim (Bool-cases (nat_beq n pid)) [
  | inl same ↦
      let same_id : n ≡ pid = ground (arith, same) in
      absurd (cc (subst (λ x. matrices x ≡ true) same_id k))
  | inr other ↦ other
]

-- A working process has another id than one that does not work.
other_id :
    (processes : ℕ → Option Process) (pid n : ℕ) (p : Process) (stage : Stage)
    → processes pid ≡ some p
    → p.stage ≡ stage
    → (stage ≡ working → ⊥)
    → IsWorking processes n
    → nat_beq n pid ≡ false
other_id processes pid n p stage h at idle (q, found, works) = elim (Bool-cases (nat_beq n pid)) [
  | inl same ↦
      let same_id : n ≡ pid = ground (arith, same) in
      let there : processes pid ≡ some q = subst (λ x. processes x ≡ some q) same_id found in
      let same_process : p ≡ q = cc in
      absurd (idle (sym at ∙ ap (λ (r : Process). r.stage) same_process ∙ works))
  | inr other ↦ other
]

-- A change at an id of which no matrix is owed to a worker.
change-IsOwned :
    (processes : ℕ → Option Process) (matrices later killed gone : ℕ → Bool) (fresh pid : ℕ)
    (v : Option Process)
    → IsOwned processes matrices killed fresh
    → pid < fresh
    → ((n : ℕ) → later n ≡ true → matrices n ≡ true)
    → ((n : ℕ) → later n ≡ true → gone n ≡ false → (nat_beq n pid ≡ false) × (killed n ≡ false))
    → IsOwned (set_at pid v processes) later gone fresh
change-IsOwned processes matrices later killed gone fresh pid v i under lives apart = record {
  owned = λ n m k.
      let (other, spared) = apart n m k in
      let (p, found, works) = i.owned n (lives n m) spared in (p, rw other found, works);
  below = λ n p h. elim (set_at-cases processes pid n v p h) [
    | inl (same, e) ↦ rw same under
    | inr (other, found) ↦ i.below n p found
  ];
  new = λ n m. i.new n (lives n m);
}

-- The process at an id that does not work moves on or ends.
idle-IsOwned :
    (s : System) (pid : ℕ) (p : Process) (stage : Stage) (v : Option Process)
    → AllOwned s
    → s.processes pid ≡ some p
    → p.stage ≡ stage
    → (stage ≡ working → ⊥)
    → IsOwned (set_at pid v s.processes) s.matrices s.killed s.fresh
idle-IsOwned s pid p stage v i h at idle =
    change-IsOwned s.processes s.matrices s.matrices s.killed s.killed s.fresh pid v i
      (i.below pid p h) (λ n m. m)
      (λ n m k. (other_id s.processes pid n p stage h at idle (i.owned n m k), k))

spawn-IsOwned :
    (s : System) (p : Process)
    → AllOwned s
    → IsOwned (set_at s.fresh (some p) s.processes) s.matrices s.killed (suc s.fresh)
spawn-IsOwned s p i = record {
  owned = λ n m k.
      let (q, found, works) = i.owned n m k in
      let older = i.below n q found in
      let other : nat_beq n s.fresh ≡ false = ground (arith, older) in (q, rw other found, works);
  below = λ n q h. elim (set_at-cases s.processes s.fresh n (some p) q h) [
    | inl (same, e) ↦ omega (arith, same)
    | inr (other, found) ↦ omega (arith, i.below n q found)
  ];
  new = λ n m. omega (arith, i.new n m);
}

begin-IsOwned :
    (s : System) (pid : ℕ) (p : Process)
    → AllOwned s
    → pid < s.fresh
    → p.stage ≡ working
    → IsOwned (set_at pid (some p) s.processes) (set_flag pid true s.matrices) s.killed s.fresh
begin-IsOwned s pid p i under works = record {
  owned = λ n m k. elim (Bool-cases (nat_beq n pid)) [
    | inl same ↦ (p, rw same refl, works)
    | inr other ↦ let (q, found, at) = i.owned n (rw other at m) k in (q, rw other found, at)
  ];
  below = λ n q h. elim (set_at-cases s.processes pid n (some p) q h) [
    | inl (same, e) ↦ rw same under
    | inr (other, found) ↦ i.below n q found
  ];
  new = λ n m. elim (Bool-cases (nat_beq n pid)) [
    | inl same ↦ ground (arith, same, under)
    | inr other ↦ i.new n (rw other at m)
  ];
}

Step-AllOwned : {s t : System} → Step s t → AllOwned s → AllOwned t
unfolding leave
Step-AllOwned (announce resume idle_lock dead saved) i = i
Step-AllOwned {s} (spawn {resume = resume} h) i =
    spawn-IsOwned s (record { stage = started; resume = resume }) i
Step-AllOwned (register h) i = i
Step-AllOwned give_up i = i
Step-AllOwned {s} (lock {p = p} pid h stage free) i =
    idle-IsOwned s pid p started (some (record p { stage = locked })) i h stage (λ e. absurd cc)
Step-AllOwned {s} (refuse {p = p} pid h stage held) i =
    idle-IsOwned s pid p started none i h stage (λ e. absurd cc)
Step-AllOwned (queue pid h stage fresh_run) i = i
Step-AllOwned {s} (begin {p = p} pid h stage) i =
    begin-IsOwned s pid (record p { stage = working }) i (i.below pid p h) refl
Step-AllOwned (prepare pid h) i = i
Step-AllOwned {s} (end_matrix pid h) i = record {
  owned = λ n m k. i.owned n (set_flag-true pid n s.matrices m).1 k;
  below = i.below;
  new = λ n m. i.new n (set_flag-true pid n s.matrices m).1;
}
Step-AllOwned {s} (finish {p = p} pid report h stage ended) i =
    change-IsOwned s.processes s.matrices s.matrices s.killed s.killed s.fresh pid none i
      (i.below pid p h) (λ n m. m) (λ n m k. (ended_elsewhere s.matrices pid n ended m, k))
Step-AllOwned {s} (fail_locked {p = p} pid h stage) i =
    idle-IsOwned s pid p locked none i h stage (λ e. absurd cc)
Step-AllOwned {s} (fail_working {p = p} pid h stage) i =
    change-IsOwned s.processes s.matrices (set_flag pid false s.matrices) s.killed s.killed s.fresh
      pid none i (i.below pid p h) (λ n m. (set_flag-true pid n s.matrices m).1)
      (λ n m k. ((set_flag-true pid n s.matrices m).0, k))
Step-AllOwned {s} (kill {p = p} pid h) i =
    change-IsOwned s.processes s.matrices s.matrices s.killed (set_flag pid true s.killed) s.fresh
      pid none i (i.below pid p h) (λ n m. m) (λ n m k. set_flag-false pid n s.killed k)

Reach-AllOwned : {s : System} → Reach first_state s → AllOwned s
Reach-AllOwned here = record {
  owned = λ n m k. absurd cc;
  below = λ n p h. absurd cc;
  new = λ n m. absurd cc;
}
Reach-AllOwned (next r step) = Step-AllOwned step (Reach-AllOwned r)

-- Whatever launchers and workers do, and whenever they are killed, two matrices of a session that run
-- at the same time, and of which neither worker has been killed, are one.
pub Reach-matrices :
    {s : System} (r : Reach first_state s) (m n : ℕ)
    → s.matrices m ≡ true
    → s.killed m ≡ false
    → s.matrices n ≡ true
    → s.killed n ≡ false
    → m ≡ n
Reach-matrices {s} r m n runs spared runs' spared' =
    let i = Reach-AllOwned r in
    let (p, h, a) = i.owned m runs spared in
    let (q, k, b) = i.owned n runs' spared' in
    let (same, _) =
      same_holder s (Reach-IsSound r) m n p q h (working-is_behind_lock p.stage a) k
        (working-is_behind_lock q.stage b) in
    same
