-- ===== src/Tests/Phase.antt =====
-- A phase of three steps against a server that answers from the second second on.
use replaybook.Prelude.{
  ℕ, ◌+◌, ◌-◌, ◌<◌, ◌≡◌, refl, String, true, false, Option, none, some, List, [], ◌∷◌, All, leb,
  ltb, nat_beq, ◌||◌, arith, if◌then◌else◌,
}
use replaybook.Prelude.Int.{pos}
use replaybook.Prelude.Text.{decimal}
use replaybook.Prelude.Result.{ok}
use replaybook.Json.{Value, int, str, arr, obj, nil, cons, Fields, end, field}
use replaybook.Phase.{World, Request, Exchange, answered, unreachable, Outcome, done}
use replaybook.Phase.Values.{string_value}
use replaybook.Phase.Steps.{
  StateDir, phase_start, run_phase, run_replay_http, wait_settings, run_wait_http, initial_delay,
  replay_clock, replay_ids, owned_ids,
}
use replaybook.Json.Access.{get}
use replaybook.Phase.Files.{Refines, run_phase-Refines}
use replaybook.Phase.Replay.{IsRecovered, run_replay_http-IsRecovered}
use replaybook.Phase.Ends.{IsOver, run_wait_http-IsOver, replay_ids-IsOver}
use replaybook.Phase.Describe.{Description, describe_manifest}
use replaybook.Phase.Describe.Valid.{IsValid, describe_manifest-IsValid}
use replaybook.Tests.Data.{nat_floats}

abbrev server : World ℕ ℕ
server = record {
  reply = λ i r w. if leb 1 w then answered (pos 200) "ok" else unreachable;
  served = λ rs w. w;
  monotonic = λ w. w;
  ticked = λ w. w;
  slept = λ s w. w + s;
  stamp = λ i w. decimal w;
}

abbrev wait_step : Fields ℕ
wait_step =
    field "type" (str "wait_http")
      (field "path" (str "/health") (field "timeout_seconds" (int (pos 3)) end))

abbrev concurrent_step : Fields ℕ
concurrent_step = field "type" (str "concurrent_http") (
    field "path" (str "/orders/{id}") (
      field "count" (int (pos 2)) (
        field "min_success" (int (pos 0))
          (field "record_failed_as" (str "lost") (field "record_all_as" (str "all") end)))))

abbrev replay_step : Fields ℕ
replay_step = field "type" (str "replay_http") (
    field "path" (str "/orders/{id}")
      (field "ids_from" (str "lost") (field "timeout_seconds" (int (pos 3)) end)))

abbrev manifest : Fields ℕ
manifest =
    field "scenario"
      (obj (
        field "version" (int (pos 2)) (
          field "nixos_config" (str "configuration.nix") (
            field "instruction" (str "instruction.md") (
              field "oracle" (str "oracle.sh") (
                field "required_services" (arr (cons (str "api") nil)) (
                  field "restart_services" (arr (cons (str "api") nil))
                    (field "image_artifacts" (arr (cons (str "out/plot.png") nil)) end))))))))
      (field "preflight"
        (obj (
          field "steps"
            (arr (cons (obj concurrent_step) (cons (obj wait_step) (cons (obj replay_step) nil))))
            end))
        (field "verify" (obj (field "steps" (arr nil) end)) (
          field "guest_leak_audit"
            (obj (
              field "forbidden_strings" (arr (cons (str " root-password") nil))
                (field "scan_paths" (arr (cons (str "/etc/app") nil)) end)))
            end)))

abbrev empty_dir : StateDir ℕ
empty_dir = record { state = none; failure = none }

starts : (p : List (Value ℕ) × Fields ℕ) × (phase_start "preflight" (ok manifest) empty_dir ≡ ok p)
unfolding phase_start get
starts = (_, refl)

run_phase-Refines_example :
    Refines server "http://h/" "preflight" 9 1 starts.0.0 starts.0.1 0
      (run_phase server "http://h/" "preflight" 9 (ok manifest) empty_dir 0)
run_phase-Refines_example =
    run_phase-Refines server "http://h/" "preflight" 9 (ok manifest) empty_dir 0 starts.0.0
      starts.0.1 starts.1

abbrev recorded : Fields ℕ
recorded = field "lost" (arr (cons (str "a") (cons (str "b") nil))) end

replayed : (run_replay_http server "http://h/" "preflight" 9 replay_step recorded 0).outcome ≡ done
unfolding run_replay_http replaybook.Json.Access.get_or get replaybook.Phase.Values.format_value
    replaybook.Phase.Values.matches
replayed = refl

run_replay_http-IsRecovered_example :
    (key : String) × (ids : List String) × (string_value replay_step "ids_from" none ≡ ok key)
    × (owned_ids (get key recorded) ≡ some ids)
    × All (IsRecovered server "http://h/" "preflight" replay_step 0) ids
run_replay_http-IsRecovered_example =
    run_replay_http-IsRecovered server "http://h/" "preflight" 9 replay_step recorded 0 replayed

settings : wait_settings server "http://h/" "preflight" wait_step ≡ ok ("/health", 3, 1)
unfolding wait_settings replaybook.Json.Access.get_or replaybook.Phase.Values.format_value
settings = refl

before_three : (v : ℕ) → ltb v 3 ≡ true → 3 - (v + 1) < 3 - v
before_three v h = ground arith

run_wait_http-IsOver_example :
    IsOver (run_wait_http server "http://h/" "preflight" 4 wait_step end 0).outcome
run_wait_http-IsOver_example =
    run_wait_http-IsOver server "http://h/" "preflight" wait_step end 0 "/health" 3 1 settings
      (λ v. 3 - v) (λ v r h. before_three v h) 4 (omega arith)

no_delay : initial_delay server "http://h/" "preflight" replay_step 0 ≡ ok 0
unfolding initial_delay get
no_delay = refl

clock : replay_clock server "http://h/" "preflight" replay_step 0 ≡ ok (3, 1)
unfolding replay_clock get replaybook.Json.Access.get_or
clock = refl

past_three : (v : ℕ) → (ltb 3 v || nat_beq 3 v) ≡ false → 3 - (v + 1) < 3 - v
past_three v h = ground arith

replay_ids-IsOver_example :
    IsOver
      (replay_ids server "http://h/" "preflight" 4 replay_step recorded ("a" ∷ "b" ∷ []) 0).outcome
replay_ids-IsOver_example =
    replay_ids-IsOver server "http://h/" "preflight" replay_step recorded ("a" ∷ "b" ∷ []) 0 0 3 1
      no_delay clock (λ v. 3 - v) (λ v rs h. past_three v h) 4 (omega arith)

described : (d : Description) × (describe_manifest manifest ≡ ok d)
unfolding describe_manifest get replaybook.Json.Access.get_or replaybook.Prelude.Eq.unique
described = (_, refl)

describe_manifest-IsValid_example : IsValid described.0
describe_manifest-IsValid_example = describe_manifest-IsValid manifest described.0 described.1
