-- ===== src/Phase/Files.antt =====
-- What `run_phase` of scenario_phase.py leaves in the state directory, against an abstract execution
-- of the steps that knows no files.
use replaybook.Prelude.{
  ℕ, suc, ◌≡◌, refl, sym, subst, ap, inl, inr, String, Option, none, some, List, [], ◌∷◌,
}
use replaybook.Prelude.Result.{Result, ok, err, Error, Result-cases, >>=-eq-ok, ok-injective}
use replaybook.Json.{Value, Fields}
use replaybook.Json.Floats.{Floats}
use replaybook.Phase.{World, Outcome, done, failed, raised, running, Ran}
use replaybook.Phase.Steps.{
  Failure, StateDir, PhaseEnd, load_state, checked_step, run_step, saved_state, run_steps,
  plan_name, plan_steps, phase_start, run_phase,
}

module _ {F W : Type 0} ⦃fl : Floats F⦄ (world : World F W) (base_url phase : String)
    (fuel : ℕ) where
  -- An execution of the steps from an index on: from a state and a world to an outcome, the failure
  -- that is reported, the state that counts and a world. A step that returns or raises PhaseFailure
  -- hands its state on, any other exception loses what the step did to the state, and nothing runs
  -- behind a step that does not return. A PhaseFailure is reported with the index of its step, and
  -- nothing else is.
  pub data Execution
      : ℕ → List (Value F) → Fields F → W → Outcome → Option Failure → Fields F → W → Type 0 where
    finished : {i : ℕ} {s : Fields F} {w : W} → Execution i [] s w done none s w
    refused :
        {i : ℕ} {v : Value F} {vs : List (Value F)} {s : Fields F} {w : W} {e : Error}
        → checked_step phase i v ≡ err e
        → Execution i (v ∷ vs) s w (raised e) none s w
    returned :
        {i : ℕ} {v : Value F} {vs : List (Value F)} {s u : Fields F} {w y : W} {step : Fields F}
        {step_type : String} {o : Outcome} {report : Option Failure} {r : Ran F W}
        → checked_step phase i v ≡ ok (step, step_type)
        → run_step world base_url phase fuel step_type step s w ≡ r
        → r.outcome ≡ done
        → Execution (suc i) vs r.state r.world o report u y
        → Execution i (v ∷ vs) s w o report u y
    broken_off :
        {i : ℕ} {v : Value F} {vs : List (Value F)} {s : Fields F} {w : W} {step : Fields F}
        {r : Ran F W} {step_type category message : String}
        → checked_step phase i v ≡ ok (step, step_type)
        → run_step world base_url phase fuel step_type step s w ≡ r
        → r.outcome ≡ failed category message
        → Execution i
            (v ∷ vs)
            s
            w
            (failed category message)
            (some (record { category = category; message = message; phase = phase; step = i }))
            r.state
            r.world
    aborted :
        {i : ℕ} {v : Value F} {vs : List (Value F)} {s : Fields F} {w : W} {step : Fields F}
        {r : Ran F W} {step_type : String} {e : Error}
        → checked_step phase i v ≡ ok (step, step_type)
        → run_step world base_url phase fuel step_type step s w ≡ r
        → r.outcome ≡ raised e
        → Execution i (v ∷ vs) s w (raised e) none s r.world
    unfinished :
        {i : ℕ} {v : Value F} {vs : List (Value F)} {s : Fields F} {w : W} {step : Fields F}
        {r : Ran F W} {step_type : String}
        → checked_step phase i v ≡ ok (step, step_type)
        → run_step world base_url phase fuel step_type step s w ≡ r
        → r.outcome ≡ running
        → Execution i (v ∷ vs) s w running none s r.world

  -- The files behind a phase agree with an execution of its steps.
  pub record Refines (i : ℕ) (steps : List (Value F)) (state : Fields F) (w : W)
      (end : PhaseEnd F W) : Type 0 where
    pub final : Fields F
    pub execution : Execution i steps state w end.outcome end.dir.failure final end.world
    pub saved : load_state end.dir ≡ ok final

  -- An execution without a report, where no failure stands in the files.
  quiet :
      {i : ℕ} {steps : List (Value F)} {s t : Fields F} {w x : W} {o : Outcome}
      {failure : Option Failure}
      → failure ≡ none
      → Execution i steps s w o none t x
      → Execution i steps s w o failure t x
  quiet {i} {steps} {s} {t} {w} {x} {o} clear run =
      subst (λ f. Execution i steps s w o f t x) (sym clear) run

  step-Refines :
      (i : ℕ) (v : Value F) (vs : List (Value F)) (state : Fields F) (dir : StateDir F) (w : W)
      (step : Fields F) (step_type : String) (o : Outcome)
      → ((t : Fields F) (d : StateDir F) (x : W)
          → load_state d ≡ ok t
          → d.failure ≡ none
          → Refines (suc i) vs t x (run_steps world base_url phase fuel (suc i) vs t d x))
      → checked_step phase i v ≡ ok (step, step_type)
      → (run_step world base_url phase fuel step_type step state w).outcome ≡ o
      → load_state dir ≡ ok state
      → dir.failure ≡ none
      → Refines i (v ∷ vs) state w (run_steps world base_url phase fuel i (v ∷ vs) state dir w)
  unfolding run_steps
  step-Refines i v vs state dir w step step_type done rest checked ends loads clear =
      let r = run_step world base_url phase fuel step_type step state w in
      let more = rest r.state (record dir { state = saved_state r.state }) r.world refl clear in
      rw (run_steps, checked, ends)
        (record {
          final = more.final;
          execution = returned checked refl ends more.execution;
          saved = more.saved;
        })
  step-Refines i v vs state dir w step step_type (failed category message) rest checked ends loads
        clear =
      rw (run_steps, checked, ends)
        (record {
          final = (run_step world base_url phase fuel step_type step state w).state;
          execution = broken_off checked refl ends;
          saved = refl;
        })
  step-Refines i v vs state dir w step step_type (raised e) rest checked ends loads clear =
      rw (run_steps, checked, ends)
        (record {
          final = state;
          execution = quiet clear (aborted checked refl ends);
          saved = loads;
        })
  step-Refines i v vs state dir w step step_type running rest checked ends loads clear =
      rw (run_steps, checked, ends)
        (record {
          final = state;
          execution = quiet clear (unfinished checked refl ends);
          saved = loads;
        })

  run_steps-Refines :
      (i : ℕ) (steps : List (Value F)) (state : Fields F) (dir : StateDir F) (w : W)
      → load_state dir ≡ ok state
      → dir.failure ≡ none
      → Refines i steps state w (run_steps world base_url phase fuel i steps state dir w)
  unfolding run_steps
  run_steps-Refines i [] state dir w loads clear = record {
    final = state;
    execution = quiet clear finished;
    saved = loads;
  }
  run_steps-Refines i (v ∷ vs) state dir w loads clear =
      elim (Result-cases (checked_step phase i v)) [
        | inl (e, refuses) ↦
            rw (run_steps, refuses)
              (record { final = state; execution = quiet clear (refused refuses); saved = loads })
        | inr ((step, step_type), checked) ↦
            let r = run_step world base_url phase fuel step_type step state w in
            step-Refines i v vs state dir w step step_type r.outcome
              (λ t d x. run_steps-Refines (suc i) vs t d x) checked refl loads clear
      ]

  phase_start-loads :
      (manifest : Result (Fields F)) (dir : StateDir F) (steps : List (Value F)) (state : Fields F)
      → phase_start phase manifest dir ≡ ok (steps, state)
      → load_state dir ≡ ok state
  unfolding phase_start
  phase_start-loads manifest dir steps state h =
      let (read, _, h) = >>=-eq-ok manifest _ h in
      let (found, _, h) = >>=-eq-ok (plan_steps read (plan_name phase)) _ h in
      let (loaded, e, h) = >>=-eq-ok (load_state dir) _ h in
      let same : loaded ≡ state = ap (λ p. p.1) (ok-injective h) in rw (e, same) refl

  -- A phase that gets past its start ends as an execution of all its steps, one behind the other from
  -- the saved state; what scenario-state.json holds then loads as the state that counts, and
  -- phase-failure.json holds the PhaseFailure of the step that raised it with the index of this step,
  -- and nothing otherwise.
  pub run_phase-Refines :
      (manifest : Result (Fields F)) (dir : StateDir F) (w : W) (steps : List (Value F))
      (state : Fields F)
      → phase_start phase manifest dir ≡ ok (steps, state)
      → Refines 1 steps state w (run_phase world base_url phase fuel manifest dir w)
  unfolding run_phase
  run_phase-Refines manifest dir w steps state starts =
      rw (run_phase, starts)
        (run_steps-Refines 1 steps state (record dir { failure = none }) w
          (phase_start-loads manifest dir steps state starts) refl)
