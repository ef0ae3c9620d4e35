-- ===== src/Phase/Ends.antt =====
-- The loops of scenario_phase.py end when the clock gets past their deadline.
use replaybook.Prelude.{
  ℕ, zero, suc, ◌<◌, ◌≡◌, inl, inr, String, true, false, ◌||◌, some, List, [], ◌∷◌, is_nil, arith,
  Bool-cases,
}
use replaybook.Prelude.Result.{ok, Result-cases}
use replaybook.Json.{Fields}
use replaybook.Json.Floats.{Floats}
use replaybook.Phase.{Response, Request, World, Outcome, running}
use replaybook.Phase.Values.{matches, string_value, failure}
use replaybook.Phase.Steps.{
  response_of, request_of, wait_loop, wait_settings, run_wait_http, concurrent_batch, replies,
  split_results, is_past, replay_loop, initial_delay, replay_clock, replay_end, replay_ids,
  Replayed, left_over, broke, spent,
}

abbrev pub IsOver : Outcome → Type 0
IsOver running = ⊥
IsOver _ = Unit

abbrev pub IsReplayed : Replayed → Type 0
IsReplayed spent = ⊥
IsReplayed _ = Unit

module _ {F W : Type 0} ⦃fl : Floats F⦄ (world : World F W) (base_url phase : String) where
  failure-IsOver : (step : Fields F) (message : String) → IsOver (failure step message)
  unfolding failure
  failure-IsOver step message =
      elim (Result-cases (string_value step "failure_category" (some "verification_failed"))) [
        | inl (e, h) ↦ rw (IsOver, failure, h) tt
        | inr (category, h) ↦ rw (IsOver, failure, h) tt
      ]

  -- `remaining` is a bound on the rounds that the clock leaves before a deadline.
  wait_loop-IsOver :
      (deadline interval : F) (remaining : W → ℕ)
      → ((w : W) (r : Request F)
          → fl.lt (world.monotonic w) deadline ≡ true
          → remaining (world.slept interval (world.served (r ∷ []) (world.ticked w))) < remaining w)
      → (fuel : ℕ) (step : Fields F) (path : String) (last : Response) (state : Fields F) (w : W)
      → remaining w < fuel
      → IsOver
          (wait_loop world base_url phase fuel step path deadline interval last state w).outcome
  unfolding wait_loop
  wait_loop-IsOver deadline interval remaining sooner zero step path last state w h =
      absurd (omega (arith, h))
  wait_loop-IsOver deadline interval remaining sooner (suc fuel) step path last state w h =
      elim (Bool-cases (fl.lt (world.monotonic w) deadline)) [
        | inr late ↦ rw (wait_loop, late) (failure-IsOver step _)
        | inl soon ↦ elim (Result-cases (request_of world base_url phase step path)) [
          | inl (e, fails) ↦ rw (wait_loop, soon, fails) tt
          | inr (r, sends) ↦
              elim (Result-cases (matches (response_of (world.reply 0 r (world.ticked w))) step)) [
                | inl (e, fails) ↦ rw (wait_loop, soon, sends, fails) tt
                | inr (true, hits) ↦ rw (wait_loop, soon, sends, hits) tt
                | inr (false, misses) ↦
                    rw (wait_loop, soon, sends, misses)
                      (wait_loop-IsOver deadline interval remaining sooner fuel step path _ state _
                        (omega (arith, sooner w r soon, h)))
              ]
        ]
      ]

  replay_loop-IsReplayed :
      (deadline interval : F) (remaining : W → ℕ)
      → ((w : W) (rs : List (Request F))
          → is_past deadline (world.monotonic (world.served rs w)) ≡ false
          → remaining (world.slept interval (world.ticked (world.served rs w))) < remaining w)
      → (fuel : ℕ) (step : Fields F) (ids : List String) (w : W) → remaining w < fuel
      → IsReplayed (replay_loop world base_url phase fuel step deadline interval ids w).0
  unfolding replay_loop
  replay_loop-IsReplayed deadline interval remaining sooner fuel step [] w h = tt
  replay_loop-IsReplayed deadline interval remaining sooner zero step (id ∷ ids) w h =
      absurd (omega (arith, h))
  replay_loop-IsReplayed deadline interval remaining sooner (suc fuel) step (id ∷ ids) w h =
      elim (Result-cases (concurrent_batch world base_url phase step (id ∷ ids))) [
        | inl (e, fails) ↦ rw (replay_loop, fails) tt
        | inr (rs, sends) ↦
            let results = replies world base_url phase 0 (id ∷ ids) rs w in
            elim (Result-cases (split_results world base_url phase step results)) [
              | inl (e, fails) ↦ rw (replay_loop, sends, fails) tt
              | inr ((good, bad), splits) ↦
                  let late = is_past deadline (world.monotonic (world.served rs w)) in
                  elim (Bool-cases (is_nil bad || late)) [
                    | inl ends ↦ rw (replay_loop, sends, splits, ends) tt
                    | inr goes ↦
                        rw (replay_loop, sends, splits, goes)
                          (replay_loop-IsReplayed deadline interval remaining sooner fuel step bad _
                            (omega (arith, sooner w rs (ground (arith, goes)), h)))
                  ]
            ]
      ]

  -- A waiting step ends, given more fuel than `remaining`, a bound on the rounds that the clock leaves:
  -- as long as the deadline has not passed, a request and a sleep bring it down.
  pub run_wait_http-IsOver :
      (step state : Fields F) (w : W) (path : String) (timeout interval : F)
      → wait_settings world base_url phase step ≡ ok (path, timeout, interval)
      → (remaining : W → ℕ)
      → ((v : W) (r : Request F)
          → fl.lt (world.monotonic v) (fl.add (world.monotonic w) timeout) ≡ true
          → remaining (world.slept interval (world.served (r ∷ []) (world.ticked v))) < remaining v)
      → (fuel : ℕ) → remaining (world.ticked w) < fuel
      → IsOver (run_wait_http world base_url phase fuel step state w).outcome
  unfolding run_wait_http
  run_wait_http-IsOver step state w path timeout interval reads remaining sooner fuel h =
      rw (IsOver, run_wait_http, reads)
        (wait_loop-IsOver (fl.add (world.monotonic w) timeout) interval remaining sooner fuel step
          path _ state (world.ticked w) h)

  replay_end-IsOver :
      (step : Fields F) (r : Replayed)
      → IsReplayed r
      → IsOver (replay_end world base_url phase step r)
  replay_end-IsOver step (left_over []) h = tt
  replay_end-IsOver step (left_over (id ∷ ids)) h = failure-IsOver step _
  replay_end-IsOver step (broke e) h = tt
  replay_end-IsOver step spent h = h

  -- The same for the replay of recorded ids.
  pub replay_ids-IsOver :
      (step state : Fields F) (ids : List String) (w later : W) (deadline interval : F)
      → initial_delay world base_url phase step w ≡ ok later
      → replay_clock world base_url phase step later ≡ ok (deadline, interval)
      → (remaining : W → ℕ)
      → ((v : W) (rs : List (Request F))
          → is_past deadline (world.monotonic (world.served rs v)) ≡ false
          → remaining (world.slept interval (world.ticked (world.served rs v))) < remaining v)
      → (fuel : ℕ) → remaining (world.ticked later) < fuel
      → IsOver (replay_ids world base_url phase fuel step state ids w).outcome
  unfolding replay_ids
  replay_ids-IsOver step state ids w later deadline interval sleeps reads remaining sooner fuel h =
      rw (IsOver, replay_ids, sleeps, reads)
        (replay_end-IsOver step _ (
          replay_loop-IsReplayed deadline interval remaining sooner fuel step ids
            (world.ticked later) h))
