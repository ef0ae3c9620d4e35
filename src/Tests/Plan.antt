-- ===== src/Tests/Plan.antt =====
-- The plan of a benchmark of which nothing has been published.
use replaybook.Prelude.{
  ℕ, ◌*◌, ◌≤◌, ◌<◌, ◌≡◌, refl, String, Option, none, some, List, [], ◌∷◌, length,
}
use replaybook.Prelude.Int.{ℤ, pos}
use replaybook.Prelude.Result.{ok}
use replaybook.Plan.Lanes.{Lane}
use replaybook.Plan.Gaps.{Gap, Cell, is_uncovered, plan_gaps}
use replaybook.Plan.Gaps.Coverage.{GapsOf, plan_gaps-GapsOf}
use replaybook.Plan.Commands.{CommandPlan, build_commands}
use replaybook.Plan.Commands.Ports.{Packed, build_commands-Packed}
use replaybook.Json.{obj, str, field, end}
use replaybook.Plan.Whole.{PlanArgs}
use replaybook.Tests.Data.{nat_floats, manifest_013}

abbrev two_lanes : List Lane
two_lanes = (some "p", ("a", none)) ∷ (some "p", ("b", none)) ∷ []

abbrev gap_of_model : String → Gap
gap_of_model model = record {
  scenario = "013";
  scenario_version = pos 2;
  lane = (some "p", (model, none));
  reason = "scenario has no published evidence";
}

-- The second lane has its attempts.
abbrev covered_b : List (Cell × ℤ)
covered_b = (("013", (pos 2, (some "p", ("b", none)))), pos 3) ∷ []

planned : plan_gaps {F = ℕ} manifest_013 [] two_lanes covered_b ≡ ok (gap_of_model "a" ∷ [])
unfolding plan_gaps replaybook.Prelude.Dict.lookup replaybook.Plan.Lanes.provider_id
    replaybook.Matrix.Slug.lower
planned = refl

plan_gaps-GapsOf_example :
    GapsOf
      (is_uncovered manifest_013 covered_b)
      two_lanes
      manifest_013.scenarios
      (gap_of_model "a" ∷ [])
    × (length (gap_of_model "a" ∷ []) ≤ length manifest_013.scenarios * length two_lanes)
plan_gaps-GapsOf_example =
    plan_gaps-GapsOf {F = ℕ} manifest_013 [] two_lanes covered_b (gap_of_model "a" ∷ []) planned

abbrev two_gaps : List Gap
two_gaps = gap_of_model "b" ∷ gap_of_model "a" ∷ []

commands :
    (plans : List CommandPlan) × (build_commands manifest_013 (pos 2) two_gaps 22600 ≡ ok plans)
unfolding build_commands replaybook.Prelude.Eq.unique replaybook.Prelude.Order.sort
commands = (_, refl)

build_commands-Packed_example : Packed manifest_013 (pos 2) 22600 commands.0
build_commands-Packed_example =
    build_commands-Packed manifest_013 (pos 2) two_gaps 22600 commands.0 commands.1

abbrev plan_args : PlanArgs ℕ
plan_args = record {
  concurrency = pos 2;
  base_port = pos 22600;
  manifest = ok manifest_013;
  fleet = obj (field "model" (str "a") (field "provider" (str "p") end)) ∷ [];
  scenarios = [];
  catalog = [];
  models = [];
  reasoning_efforts = [];
  providers = [];
  sources = [];
}
