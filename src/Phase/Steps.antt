-- ===== src/Phase/Steps.antt =====
-- The three kinds of steps and `run_phase` of integrations/host/scenario_phase.py.
use Prim.Native.Char.{code}
use replaybook.Prelude.{
  ℕ, zero, suc, String, Bool, true, false, not, ◌&&◌, ◌||◌, Option, none, some, List, [], ◌∷◌, map,
  length, is_nil, nat_beq, if◌then◌else◌,
}
use replaybook.Prelude.Int.{ℤ, pos, int_ltb, is_positive, to_nat}
use replaybook.Prelude.Eq.{◌==◌, string_eq, elem}
use replaybook.Prelude.Text.{◌<>◌, decimal, int_text}
use replaybook.Prelude.Order.{join}
use replaybook.Prelude.Result.{
  Result, ok, err, Error, value_error, raise_if, ◌>>=◌, ◌>>◌, map_result,
}
use replaybook.Json.{Value, str, arr, obj, Fields, end, items_list, list_items}
use replaybook.Json.Floats.{Floats}
use replaybook.Json.Access.{get, put, as_obj, as_arr, is_null}
use replaybook.Phase.{
  Response, Request, Exchange, answered, http_error, unreachable, World, Outcome, done, failed,
  raised, running, Ran,
}
use replaybook.Phase.Values.{
  string_value, integer_value, number_value, format_value, matches, failure, repr,
}

-- `path.lstrip('/')` and `base_url.rstrip('/')`
abbrev pub lstrip_slash : String → String
lstrip_slash String.[] = ""
lstrip_slash (String.◌∷◌ c s) =
    let rest = lstrip_slash s in if nat_beq (code c) b'/' then rest else String.◌∷◌ c s

abbrev pub rstrip_slash : String → String
rstrip_slash String.[] = ""
rstrip_slash (String.◌∷◌ c s) =
    let rest = rstrip_slash s in
    if nat_beq (code c) b'/' && rest == "" then "" else String.◌∷◌ c rest

-- What `request` returns.
abbrev pub response_of : Exchange → Response
response_of (answered status body) = record { status = status; body = body }
response_of (http_error status body) = record { status = status; body = body }
response_of unreachable = record { status = pos 0; body = "" }

-- The phase-failure.json of a state directory.
pub record Failure : Type 0 where
  pub category : String
  pub message : String
  pub phase : String
  pub step : ℕ

-- A state directory: the parsed scenario-state.json where it exists, and phase-failure.json.
pub record StateDir (F : Type 0) : Type 0 where
  pub state : Option (Result (Value F))
  pub failure : Option Failure

pub record PhaseEnd (F W : Type 0) : Type 0 where
  pub outcome : Outcome
  pub dir : StateDir F
  pub world : W

-- How the loop over the pending ids ends: with ids left over, with an exception, or without fuel.
pub data Replayed : Type 0 where
  left_over : List String → Replayed
  broke : Error → Replayed
  spent : Replayed

abbrev pub supported_steps : List String
supported_steps = "wait_http" ∷ "concurrent_http" ∷ "replay_http" ∷ []

-- What the results of a concurrent step say: the ids with and without a match, and the bounds.
pub record Tally : Type 0 where
  pub successes : List String
  pub failed_ids : List String
  pub minimum : ℤ
  pub maximum : ℤ

-- The test on the number of successes.
abbrev pub is_within_bounds : Tally → Bool
is_within_bounds t =
    not (int_ltb (pos (length t.successes)) t.minimum)
    && not (int_ltb t.maximum (pos (length t.successes)))

abbrev pub plan_name : String → String
plan_name phase = if phase == "preflight" then "preflight" else "verify"

-- `len(identifiers) or 1`
abbrev pub default_concurrency : List String → ℤ
default_concurrency [] = pos 1
default_concurrency (x ∷ xs) = pos (length (x ∷ xs))

module _ {F : Type 0} where
  abbrev pub strings : List String → Value F
  strings ids = arr (list_items (map str ids))

  -- A list of texts.
  abbrev pub all_texts : List (Value F) → Option (List String)
  all_texts [] = some []
  all_texts (str s ∷ vs) = elim (all_texts vs) [ none ↦ none | some rest ↦ some (s ∷ rest) ]
  all_texts (v ∷ vs) = none

  -- `isinstance(v, list) and v and all(isinstance(item, str) for item in v)`
  abbrev pub owned_ids : Value F → Option (List String)
  owned_ids v = elim (as_arr v) [
    | none ↦ none
    | some items ↦ if is_nil (items_list items) then none else all_texts (items_list items)
  ]

  -- `if step.get(key) is not None: state[string_value(step, key)] = ids`
  unfoldable pub record_as : String → List String → Fields F → Fields F → Result (Fields F)
  unfolding string_value
  record_as key ids step state =
      if is_null (get key step)
      then ok state
      else string_value step key none >>= λ name. ok (put name (strings ids) state)

  -- `load_state`
  abbrev pub load_state : StateDir F → Result (Fields F)
  load_state dir = elim dir.state [
    | none ↦ ok end
    | some read ↦ read >>= λ v. elim (as_obj v) [
      | none ↦ err (value_error "scenario state must be a JSON object")
      | some state ↦ ok state
    ]
  ]

  -- `manifest.get(plan_name)` with its steps.
  unfoldable pub plan_steps : Fields F → String → Result (List (Value F))
  plan_steps manifest plan_name = elim (as_obj (get plan_name manifest)) [
    | none ↦ err (value_error ("manifest does not define " <> plan_name <> ".steps"))
    | some config ↦ elim (as_arr (get "steps" config)) [
      | none ↦ err (value_error ("manifest does not define " <> plan_name <> ".steps"))
      | some steps ↦ ok (items_list steps)
    ]
  ]

  -- The guards on an entry of the steps: the table and its type.
  unfoldable pub checked_step : String → ℕ → Value F → Result (Fields F × String)
  unfolding string_value
  checked_step phase index v = elim (as_obj v) [
    | none ↦ err (value_error (phase <> " step " <> decimal index <> " must be a table"))
    | some step ↦ string_value step "type" none >>= λ step_type.
        raise_if (not (elem step_type supported_steps)) ("unsupported step type: " <> step_type)
        >> ok (step, step_type)
  ]

  abbrev pub saved_state : Fields F → Option (Result (Value F))
  saved_state state = some (ok (obj state))

  -- The steps of the plan and the saved state; nothing is written before both are read.
  unfoldable pub phase_start :
      String → Result (Fields F) → StateDir F → Result (List (Value F) × Fields F)
  unfolding plan_steps
  phase_start phase manifest dir = do
    read ← manifest
    steps ← plan_steps read (plan_name phase)
    state ← load_state dir
    ok (steps, state)

module _ {F : Type 0} ⦃fl : Floats F⦄ where
  -- `now >= deadline`
  abbrev pub is_past : F → F → Bool
  is_past deadline now = fl.lt deadline now || fl.eq deadline now

module _ {F W : Type 0} ⦃fl : Floats F⦄ (world : World F W) (base_url phase : String) where
  -- The request that `request` sends.
  unfoldable pub request_of : Fields F → String → Result (Request F)
  unfolding string_value number_value
  request_of step path = do
    method ← string_value step "method" (some "GET")
    timeout ← number_value step "request_timeout_seconds" 5
    ok (record {
      method = method;
      url = rstrip_slash base_url <> "/" <> lstrip_slash path;
      timeout = timeout;
    })

  abbrev pub ran : Outcome → Fields F → W → Ran F W
  ran outcome state w = record { outcome = outcome; state = state; world = w }

  -- The loop of `run_wait_http`.
  unfoldable pub wait_loop : ℕ → Fields F → String → F → F → Response → Fields F → W → Ran F W
  unfolding request_of
  wait_loop zero step path deadline interval last state w = ran running state w
  wait_loop (suc fuel) step path deadline interval last state w =
      elim (fl.lt (world.monotonic w) deadline) [
        | false ↦
            ran
              (failure step (
                phase
                <> " HTTP assertion failed for "
                <> path
                <> ": status="
                <> int_text last.status
                <> " body="
                <> repr last.body))
              state (world.ticked w)
        | true ↦ elim (request_of step path) [
          | err e ↦ ran (raised e) state (world.ticked w)
          | ok r ↦ elim (matches (response_of (world.reply 0 r (world.ticked w))) step) [
            | err e ↦ ran (raised e) state (world.served (r ∷ []) (world.ticked w))
            | ok matched ↦ elim matched [
              | true ↦ ran done state (world.served (r ∷ []) (world.ticked w))
              | false ↦
                  wait_loop fuel step path deadline interval
                    (response_of (world.reply 0 r (world.ticked w))) state
                    (world.slept interval (world.served (r ∷ []) (world.ticked w)))
            ]
          ]
        ]
      ]

  -- The path, the timeout and the interval of a waiting step.
  unfoldable pub wait_settings : Fields F → Result (String × F × F)
  unfolding string_value number_value
  wait_settings step = do
    template ← string_value step "path" none
    path ← format_value template phase ""
    timeout ← number_value step "timeout_seconds" 30
    interval ← number_value step "interval_seconds" 1
    ok (path, timeout, interval)

  unfoldable pub run_wait_http : ℕ → Fields F → Fields F → W → Ran F W
  unfolding wait_settings wait_loop
  run_wait_http fuel step state w = elim (wait_settings step) [
    | err e ↦ ran (raised e) state w
    | ok (path, timeout, interval) ↦
        wait_loop fuel step path (fl.add (world.monotonic w) timeout) interval
          (record { status = pos 0; body = "" }) state (world.ticked w)
  ]

  -- `[generated_id(prefix, index) for index in range(index, index + count)]`
  unfoldable pub generated_ids : String → ℕ → ℕ → W → List String
  generated_ids prefix index zero w = []
  generated_ids prefix index (suc count) w =
      (prefix <> "-" <> world.stamp index w <> "-" <> decimal index)
      ∷ generated_ids prefix (suc index) count w

  -- The requests of `concurrent_requests`. What raises does so for each id alike, before a request.
  unfoldable pub concurrent_batch : Fields F → List String → Result (List (Request F))
  unfolding string_value integer_value request_of
  concurrent_batch step identifiers = do
    template ← string_value step "path" none
    concurrency ← integer_value step "concurrency" (some (default_concurrency identifiers))
    raise_if (not (is_positive concurrency)) "concurrency must be positive"
    map_result (λ id. format_value template phase id >>= λ path. request_of step path) identifiers

  -- The ids with their responses, in the order of the ids.
  unfoldable pub replies : ℕ → List String → List (Request F) → W → List (String × Response)
  replies i (id ∷ ids) (r ∷ rs) w = (id, response_of (world.reply i r w)) ∷ replies (suc i) ids rs w
  replies i _ _ w = []

  -- `[id for id, response in results if matches(response, step)]` and its complement.
  unfoldable pub split_results :
      Fields F → List (String × Response) → Result (List String × List String)
  split_results step [] = ok ([], [])
  split_results step ((id, response) ∷ results) = do
    matched ← matches response step
    rest ← split_results step results
    ok (if matched then (id ∷ rest.0, rest.1) else (rest.0, id ∷ rest.1))

  unfoldable pub tally : Fields F → ℤ → List (String × Response) → Result Tally
  unfolding split_results integer_value
  tally step count results = do
    split ← split_results step results
    minimum ← integer_value step "min_success" (some count)
    maximum ← integer_value step "max_success" (some count)
    raise_if (int_ltb minimum (pos 0) || int_ltb maximum minimum || int_ltb count maximum)
        "success bounds must satisfy 0 <= min_success <= max_success <= count"
    ok (record { successes = split.0; failed_ids = split.1; minimum = minimum; maximum = maximum })

  -- What a concurrent step does before its requests: the count, the fresh ids and the requests.
  unfoldable pub concurrent_start : Fields F → W → Result (ℤ × List String × List (Request F))
  unfolding string_value integer_value concurrent_batch generated_ids
  concurrent_start step w = do
    count ← integer_value step "count" none
    raise_if (not (is_positive count)) "count must be positive"
    template ← string_value step "id_prefix" (some phase)
    prefix ← format_value template phase ""
    requests ← concurrent_batch step (generated_ids prefix 1 (to_nat count) w)
    ok (count, generated_ids prefix 1 (to_nat count) w, requests)

  -- What it does with the tally: the state records the ids before the bounds are tested.
  unfoldable pub concurrent_end : Fields F → ℤ → List String → Tally → Fields F → W → Ran F W
  unfolding record_as
  concurrent_end step count identifiers t state w =
      elim (record_as "record_all_as" identifiers step state) [
        | err e ↦ ran (raised e) state w
        | ok all ↦ elim (record_as "record_failed_as" t.failed_ids step all) [
          | err e ↦ ran (raised e) all w
          | ok recorded ↦
              ran
                (if is_within_bounds t
                  then done
                  else failure step (
                      phase
                      <> " concurrent HTTP assertion got "
                      <> decimal (length t.successes)
                      <> "/"
                      <> int_text count
                      <> " successes; expected "
                      <> int_text t.minimum
                      <> ".."
                      <> int_text t.maximum))
                recorded w
        ]
      ]

  unfoldable pub run_concurrent_http : Fields F → Fields F → W → Ran F W
  unfolding concurrent_start replies tally concurrent_end
  run_concurrent_http step state w = elim (concurrent_start step w) [
    | err e ↦ ran (raised e) state w
    | ok (count, identifiers, requests) ↦
        elim (tally step count (replies 0 identifiers requests w)) [
          | err e ↦ ran (raised e) state (world.served requests w)
          | ok t ↦ concurrent_end step count identifiers t state (world.served requests w)
        ]
  ]

  -- The loop of `run_replay_http`.
  unfoldable pub replay_loop : ℕ → Fields F → F → F → List String → W → Replayed × W
  unfolding concurrent_batch replies split_results
  replay_loop fuel step deadline interval [] w = (left_over [], w)
  replay_loop zero step deadline interval (id ∷ ids) w = (spent, w)
  replay_loop (suc fuel) step deadline interval (id ∷ ids) w =
      elim (concurrent_batch step (id ∷ ids)) [
        | err e ↦ (broke e, w)
        | ok requests ↦ elim (split_results step (replies 0 (id ∷ ids) requests w)) [
          | err e ↦ (broke e, world.served requests w)
          | ok (successes, pending) ↦
              elim (is_nil pending
                || is_past deadline (world.monotonic (world.served requests w))) [
                  | true ↦ (
                    left_over pending,
                    if is_nil pending
                        then world.served requests w
                        else world.ticked (world.served requests w),
                  )
                  | false ↦
                      replay_loop fuel step deadline interval pending
                        (world.slept interval (world.ticked (world.served requests w)))
                ]
        ]
      ]

  -- `time.sleep` before the first round, where the step asks for it.
  unfoldable pub initial_delay : Fields F → W → Result W
  unfolding number_value
  initial_delay step w =
      if is_null (get "initial_delay_seconds" step)
      then ok w
      else number_value step "initial_delay_seconds" 1 >>= λ seconds. ok (world.slept seconds w)

  -- The deadline and the interval.
  unfoldable pub replay_clock : Fields F → W → Result (F × F)
  unfolding number_value
  replay_clock step w =
      if is_null (get "timeout_seconds" step) then ok (world.monotonic w, fl.of_int (pos 0)) else do
        timeout ← number_value step "timeout_seconds" 30
        interval ← number_value step "interval_seconds" 1
        ok (fl.add (world.monotonic w) timeout, interval)

  -- What the end of the loop means for the step.
  abbrev pub replay_end : Fields F → Replayed → Outcome
  replay_end step spent = running
  replay_end step (broke e) = raised e
  replay_end step (left_over []) = done
  replay_end step (left_over (id ∷ ids)) =
      failure step (phase <> " could not recover controller-owned IDs: " <> join (id ∷ ids))

  -- The replay of the ids that a state holds.
  unfoldable pub replay_ids : ℕ → Fields F → Fields F → List String → W → Ran F W
  unfolding initial_delay replay_clock replay_loop
  replay_ids fuel step state ids w = elim (initial_delay step w) [
    | err e ↦ ran (raised e) state w
    | ok later ↦ elim (replay_clock step later) [
      | err e ↦ ran (raised e) state (world.ticked later)
      | ok (deadline, interval) ↦
          let (result, after) = replay_loop fuel step deadline interval ids (world.ticked later) in
          ran (replay_end step result) state after
    ]
  ]

  unfoldable pub run_replay_http : ℕ → Fields F → Fields F → W → Ran F W
  unfolding string_value replay_ids
  run_replay_http fuel step state w = elim (string_value step "ids_from" none) [
    | err e ↦ ran (raised e) state w
    | ok key ↦ elim (owned_ids (get key state)) [
      | none ↦
          ran (failure step (phase <> " phase is missing controller-owned IDs in " <> key)) state w
      | some ids ↦ replay_ids fuel step state ids w
    ]
  ]

  unfoldable pub run_step : ℕ → String → Fields F → Fields F → W → Ran F W
  unfolding run_wait_http run_concurrent_http run_replay_http
  run_step fuel step_type step state w =
      if step_type == "wait_http"
      then run_wait_http fuel step state w
      else if step_type == "concurrent_http"
      then run_concurrent_http step state w
      else run_replay_http fuel step state w

  -- What `run_phase` writes and raises behind a step that does not return.
  abbrev pub stopped : ℕ → Outcome → Fields F → StateDir F → W → PhaseEnd F W
  stopped index (failed category message) state dir w = record {
    outcome = failed category message;
    dir = record {
      state = saved_state state;
      failure =
          some (record { category = category; message = message; phase = phase; step = index });
    };
    world = w;
  }
  stopped index outcome state dir w = record { outcome = outcome; dir = dir; world = w }

  -- The loop of `run_phase`, from the step with the index on.
  unfoldable pub run_steps : ℕ → ℕ → List (Value F) → Fields F → StateDir F → W → PhaseEnd F W
  unfolding checked_step run_step
  run_steps fuel index [] state dir w = record { outcome = done; dir = dir; world = w }
  run_steps fuel index (v ∷ steps) state dir w = elim (checked_step phase index v) [
    | err e ↦ record { outcome = raised e; dir = dir; world = w }
    | ok (step, step_type) ↦
        let after = run_step fuel step_type step state w in
        elim after.outcome [
          | done ↦
              run_steps fuel (suc index) steps after.state
                (record dir { state = saved_state after.state }) after.world
          | failed category message ↦
              stopped index (failed category message) after.state dir after.world
          | raised e ↦ stopped index (raised e) after.state dir after.world
          | running ↦ stopped index running after.state dir after.world
        ]
  ]

  -- `manifest` is what the TOML parser returns or raises.
  unfoldable pub run_phase : ℕ → Result (Fields F) → StateDir F → W → PhaseEnd F W
  unfolding phase_start run_steps
  run_phase fuel manifest dir w = elim (phase_start phase manifest dir) [
    | err e ↦ record { outcome = raised e; dir = dir; world = w }
    | ok (steps, state) ↦ run_steps fuel 1 steps state (record dir { failure = none }) w
  ]
