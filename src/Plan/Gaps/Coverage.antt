-- ===== src/Plan/Gaps/Coverage.antt =====
-- Which gaps `plan_gaps` of benchmark_plan.py reports.
use replaybook.Prelude.{
  ◌*◌, ◌≤◌, ◌≡◌, refl, subst, inl, inr, String, Bool, true, Option, none, some, List, [], ◌∷◌, ◌++◌,
  map, filter, length, length-append, arith, Bool-cases, Option-cases,
}
use replaybook.Prelude.Int.{ℤ}
use replaybook.Prelude.Dict.{Dict}
use replaybook.Prelude.Result.{ok, >>=-eq-ok, map_result, ok-injective}
use replaybook.Json.{Value, Fields, nil, arr}
use replaybook.Json.Floats.{Floats}
use replaybook.Json.Access.{get_or}
use replaybook.Json.Numbers.{iterate}
use replaybook.Manifest.{BenchmarkManifest, BenchmarkScenario}
use replaybook.Plan.Lanes.{Lane}
use replaybook.Plan.Gaps.{
  Gap, Cell, gap_of, gap_if, is_uncovered, find_last, is_published, unpublished_reason, dicts,
  checked_cell, boundary_reason, lane_reason, lane_loop, scenario_gaps, gap_loop, hashed, plan_gaps,
}

-- The gaps of a scenario: they are for its id and version and for some of the lanes that pass the
-- test, each lane at most once and in their order.
pub data Picks (p : Lane → Bool) (expected : BenchmarkScenario)
    : List Lane → List Gap → Type 0 where
  stop : Picks p expected [] []
  skip :
      {lanes : List Lane} {gaps : List Gap} (lane : Lane)
      → Picks p expected lanes gaps
      → Picks p expected (lane ∷ lanes) gaps
  pick :
      {lanes : List Lane} {gaps : List Gap} (lane : Lane) (reason : String)
      → p lane ≡ true
      → Picks p expected lanes gaps
      → Picks p expected (lane ∷ lanes) (gap_of expected reason lane ∷ gaps)

Picks-le :
    {p : Lane → Bool} {expected : BenchmarkScenario} {lanes : List Lane} {gaps : List Gap}
    → Picks p expected lanes gaps
    → length gaps ≤ length lanes
Picks-le stop = omega arith
Picks-le (skip lane h) = omega (arith, Picks-le h)
Picks-le (pick lane reason e h) = omega (arith, Picks-le h)

-- Any lane passes.
abbrev any_lane : Lane → Bool
any_lane lane = true

Picks-map :
    (expected : BenchmarkScenario) (reason : String) (lanes : List Lane)
    → Picks any_lane expected lanes (map (gap_of expected reason) lanes)
Picks-map expected reason [] = stop
Picks-map expected reason (lane ∷ lanes) = pick lane reason refl (Picks-map expected reason lanes)

Picks-head :
    (p : Lane → Bool) (expected : BenchmarkScenario) (lane : Lane) (lanes : List Lane)
    → p lane ≡ true
    → ((gaps : List Gap)
        → Picks any_lane expected (filter p lanes) gaps
        → Picks p expected lanes gaps)
    → {gaps : List Gap} → Picks any_lane expected (lane ∷ filter p lanes) gaps
    → Picks p expected (lane ∷ lanes) gaps
Picks-head p expected lane lanes e rest (skip _ h) = skip lane (rest _ h)
Picks-head p expected lane lanes e rest (pick _ reason _ h) = pick lane reason e (rest _ h)

-- What is picked from the lanes that pass a test.
Picks-filter :
    (p : Lane → Bool) (expected : BenchmarkScenario) (lanes : List Lane) {gaps : List Gap}
    → Picks any_lane expected (filter p lanes) gaps
    → Picks p expected lanes gaps
Picks-filter p expected [] stop = stop
Picks-filter p expected (lane ∷ lanes) h = elim (Bool-cases (p lane)) [
  | inl e ↦ Picks-head p expected lane lanes e (λ _ k. Picks-filter p expected lanes k) (rw e at h)
  | inr e ↦ skip lane (Picks-filter p expected lanes (rw e at h))
]

picked :
    (expected : BenchmarkScenario) (lane : Lane) (reason : Option String) {lanes : List Lane}
    {gaps : List Gap}
    → Picks any_lane expected lanes gaps
    → Picks any_lane expected (lane ∷ lanes) (gap_if expected lane reason ++ gaps)
picked expected lane none h = skip lane h
picked expected lane (some reason) h = pick lane reason refl h

module _ {F : Type 0} ⦃fl : Floats F⦄ (manifest : BenchmarkManifest) where
  lane_loop-Picks :
      (expected : BenchmarkScenario) (incompatible : Option String)
      (cells : List (Option String × Fields F)) (lanes : List Lane) (gaps : List Gap)
      → lane_loop manifest expected incompatible cells lanes ≡ ok gaps
      → Picks any_lane expected lanes gaps
  unfolding lane_loop
  lane_loop-Picks expected incompatible cells [] gaps h =
      subst (Picks any_lane expected []) (ok-injective h) stop
  lane_loop-Picks expected incompatible cells (lane ∷ lanes) gaps h =
      let (reason, e, h₁) = >>=-eq-ok (lane_reason manifest incompatible cells lane) _ h in
      let (rest, e', h₂) = >>=-eq-ok (lane_loop manifest expected incompatible cells lanes) _ h₁ in
      let r = lane_loop-Picks expected incompatible cells lanes rest e' in
      subst (Picks any_lane expected (lane ∷ lanes)) (ok-injective h₂)
        (picked expected lane reason r)

  scenario_gaps-Picks :
      (published : List (Fields F)) (expected : BenchmarkScenario) (lanes : List Lane)
      (gaps : List Gap)
      → scenario_gaps manifest published expected lanes ≡ ok gaps
      → Picks any_lane expected lanes gaps
  unfolding scenario_gaps
  scenario_gaps-Picks published expected [] gaps h =
      subst (Picks any_lane expected []) (ok-injective h) stop
  scenario_gaps-Picks published expected (lane ∷ lanes) gaps h =
      elim (Option-cases (find_last (is_published expected) published)) [
        | inl new ↦
            subst (Picks any_lane expected (lane ∷ lanes))
              (ok-injective (rw (new, scenario_gaps) at h))
              (Picks-map expected (unpublished_reason published expected) (lane ∷ lanes))
        | inr (scenario, found) ↦
            let (items, _, h₁) =
              >>=-eq-ok (iterate (get_or "cells" (arr nil) scenario)) _
                (rw (found, scenario_gaps) at h) in
            let (cells, _, h₂) = >>=-eq-ok (map_result checked_cell (dicts items)) _ h₁ in
            lane_loop-Picks expected (boundary_reason manifest scenario) cells (lane ∷ lanes) gaps
              h₂
      ]

-- The gaps of a plan, by the scenarios of the manifest.
pub data GapsOf (p : BenchmarkScenario → Lane → Bool) (lanes : List Lane)
    : List BenchmarkScenario → List Gap → Type 0 where
  stop : GapsOf p lanes [] []
  next :
      {scenarios : List BenchmarkScenario} {gaps more : List Gap} (expected : BenchmarkScenario)
      → Picks (p expected) expected lanes gaps
      → GapsOf p lanes scenarios more
      → GapsOf p lanes (expected ∷ scenarios) (gaps ++ more)

GapsOf-le :
    {p : BenchmarkScenario → Lane → Bool} {lanes : List Lane} {scenarios : List BenchmarkScenario}
    {gaps : List Gap}
    → GapsOf p lanes scenarios gaps
    → length gaps ≤ length scenarios * length lanes
GapsOf-le stop = omega arith
GapsOf-le (next {gaps = gaps} {more = more} expected h rest) =
    omega (arith, Picks-le h, GapsOf-le rest, length-append gaps more)

module _ {F : Type 0} ⦃fl : Floats F⦄ (manifest : BenchmarkManifest) where
  gap_loop-GapsOf :
      (published : List (Fields F)) (lanes : List Lane) (covered : Dict Cell ℤ)
      (scenarios : List BenchmarkScenario) (gaps : List Gap)
      → gap_loop manifest published lanes covered scenarios ≡ ok gaps
      → GapsOf (is_uncovered manifest covered) lanes scenarios gaps
  unfolding gap_loop
  gap_loop-GapsOf published lanes covered [] gaps h =
      subst (GapsOf (is_uncovered manifest covered) lanes []) (ok-injective h) stop
  gap_loop-GapsOf published lanes covered (expected ∷ scenarios) gaps h =
      let p = is_uncovered manifest covered expected in
      let (found, e, h₁) =
        >>=-eq-ok (scenario_gaps manifest published expected (filter p lanes)) _ h in
      let (more, e', h₂) = >>=-eq-ok (gap_loop manifest published lanes covered scenarios) _ h₁ in
      subst (GapsOf (is_uncovered manifest covered) lanes (expected ∷ scenarios)) (ok-injective h₂)
        (next expected
          (Picks-filter p expected lanes
            (scenario_gaps-Picks manifest published expected (filter p lanes) found e))
          (gap_loop-GapsOf published lanes covered scenarios more e'))

  -- The gaps that are found stand in the order of the manifest's scenarios; those of a scenario are
  -- for its version and for lanes whose local coverage is below the attempts of the manifest, each
  -- lane at most once and in order. So there are at most as many gaps as cells.
  pub plan_gaps-GapsOf :
      (scenarios : List (Value F)) (lanes : List Lane) (covered : Dict Cell ℤ) (gaps : List Gap)
      → plan_gaps manifest scenarios lanes covered ≡ ok gaps
      → GapsOf (is_uncovered manifest covered) lanes manifest.scenarios gaps
        × (length gaps ≤ length manifest.scenarios * length lanes)
  unfolding plan_gaps
  plan_gaps-GapsOf scenarios lanes covered gaps h =
      let (published, _, k) = >>=-eq-ok (map_result hashed (dicts scenarios)) _ h in
      let r = gap_loop-GapsOf published lanes covered manifest.scenarios gaps k in (r, GapsOf-le r)
