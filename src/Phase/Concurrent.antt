-- ===== src/Phase/Concurrent.antt =====
-- What `run_concurrent_http` of scenario_phase.py records and asserts.
use replaybook.Prelude.{
  ◌≡◌, refl, ◌↔◌, ◌⊎◌, inl, inr, String, Bool, true, false, none, some, List, length,
}
use replaybook.Prelude.Int.{ℤ, pos, to_nat, int_ltb}
use replaybook.Prelude.Eq.{◌==◌, string_eq}
use replaybook.Prelude.Interleave.{Interleave}
use replaybook.Prelude.Result.{ok, Result-cases}
use replaybook.Json.{Fields}
use replaybook.Json.Floats.{Floats}
use replaybook.Json.Access.{get, is_null}
use replaybook.Phase.{Request, World, Outcome, done, failed, Ran}
use replaybook.Phase.Values.{string_value, integer_value, failure}
use replaybook.Phase.Steps.{replies, Tally, tally, strings, concurrent_start}
use replaybook.Phase.Split.{Split}

-- The step returns or raises PhaseFailure.
abbrev pub is_verdict : Outcome → Bool
is_verdict done = true
is_verdict (failed category message) = true
is_verdict _ = false

abbrev pub is_done : Outcome → Bool
is_done done = true
is_done _ = false

module _ {F : Type 0} where
  pub failure-verdict :
      (step : Fields F) (message : String) → is_done (failure step message) ≡ false
  unfolding failure
  failure-verdict step message =
      elim (Result-cases (string_value step "failure_category" (some "verification_failed"))) [
        | inl (e, h) ↦ rw (is_done, failure, h) refl
        | inr (category, h) ↦ rw (is_done, failure, h) refl
      ]

module _ {F W : Type 0} ⦃fl : Floats F⦄ (world : World F W) (base_url phase : String) where
  -- What a concurrent step has done that returns or raises PhaseFailure.
  pub record IsRecorded (step : Fields F) (w : W) (r : Ran F W) : Type 0 where
    pub count : ℤ
    pub ids : List String
    pub requests : List (Request F)
    pub tally : Tally
    pub started : concurrent_start world base_url phase step w ≡ ok (count, ids, requests)
    pub counted : integer_value step "count" none ≡ ok count
    pub length-ids : length ids ≡ to_nat count
    -- One request for each id, and no other effect on the world.
    pub length-requests : length requests ≡ length ids
    pub sent : r.world ≡ world.served requests w
    pub split :
        Split world base_url phase step
          (replies world base_url phase 0 ids requests w)
          tally.successes
          tally.failed_ids
    pub parts : Interleave tally.successes tally.failed_ids ids
    -- The bounds are those of the step, or the count.
    pub minimum : integer_value step "min_success" (some count) ≡ ok tally.minimum
    pub maximum : integer_value step "max_success" (some count) ≡ ok tally.maximum
    pub bounds :
        (int_ltb tally.minimum (pos 0) ≡ false)
        × (int_ltb tally.maximum tally.minimum ≡ false)
        × (int_ltb count tally.maximum ≡ false)
    pub verdict : (is_done r.outcome ≡ true) ↔ (
        (int_ltb (pos (length tally.successes)) tally.minimum ≡ false)
        × (int_ltb tally.maximum (pos (length tally.successes)) ≡ false))
    pub failed_recorded :
        (name : String)
        → is_null (get "record_failed_as" step) ≡ false
        → string_value step "record_failed_as" none ≡ ok name
        → get name r.state ≡ strings tally.failed_ids
    pub all_recorded :
        (name : String)
        → is_null (get "record_all_as" step) ≡ false
        → string_value step "record_all_as" none ≡ ok name
        → (is_null (get "record_failed_as" step) ≡ true)
          ⊎ ((other : String) × (string_value step "record_failed_as" none ≡ ok other)
              × ((other == name) ≡ false))
        → get name r.state ≡ strings ids
