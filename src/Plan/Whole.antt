-- ===== src/Plan/Whole.antt =====
-- `build_plan` of integrations/host/benchmark_plan.py. The files that it reads are inputs: the
-- manifest as its loader returns it, the coverage, the lanes of the catalog and the local sources.
use replaybook.Prelude.{ℕ, ◌+◌, ◌-◌, ◌*◌, ◌<◌, ◌≡◌, String, not, ◌||◌, List, [], length, All}
use replaybook.Prelude.Int.{ℤ, pos, to_nat, is_positive, int_ltb}
use replaybook.Prelude.Dict.{Dict}
use replaybook.Prelude.Result.{Result, ok, raise_if, ◌>>=◌, ◌>>◌}
use replaybook.Json.{Value, Fields}
use replaybook.Json.Floats.{Floats}
use replaybook.Manifest.{BenchmarkManifest}
use replaybook.Plan.Lanes.{Lane, selected_lanes}
use replaybook.Plan.Gaps.{Gap, Cell, is_uncovered, plan_gaps}
use replaybook.Plan.Gaps.Coverage.{GapsOf}
use replaybook.Plan.Evidence.{local_coverage}
use replaybook.Plan.Commands.{CommandPlan, build_commands}
use replaybook.Plan.Commands.Covers.{IsFilled}
use replaybook.Plan.Commands.Ports.{Packed}
use replaybook.Plan.Estimate.{Estimate, estimate}

pub record PlanArgs (F : Type 0) : Type 0 where
  pub concurrency : ℤ
  pub base_port : ℤ
  pub manifest : Result BenchmarkManifest
  pub fleet : List (Value F)
  pub scenarios : List (Value F)
  pub catalog : List (Value F)
  pub models : List String
  pub reasoning_efforts : List String
  pub providers : List String
  pub sources : List (Fields F)

-- The dict that `build_plan` returns, but for the paths that it repeats.
pub record PlanReport (F : Type 0) : Type 0 where
  pub benchmark : BenchmarkManifest
  pub lanes : List Lane
  pub covered_cells : ℕ
  pub possible_cells : ℕ
  pub gaps : List Gap
  pub estimated : Estimate F
  pub commands : List CommandPlan

module _ {F : Type 0} ⦃fl : Floats F⦄ where
  unfoldable pub build_plan : PlanArgs F → Result (PlanReport F)
  build_plan args = do
    raise_if (not (is_positive args.concurrency)) "--concurrency must be a positive integer"
    raise_if (not (is_positive args.base_port) || int_ltb (pos 65535) args.base_port)
        "--base-port must be between 1 and 65535"
    manifest ← args.manifest
    lanes ← selected_lanes args.fleet args.models args.reasoning_efforts args.providers
    covered ← local_coverage manifest args.sources []
    gaps ← plan_gaps manifest args.scenarios lanes covered
    commands ← build_commands manifest args.concurrency gaps (to_nat args.base_port)
    estimated ← estimate manifest args.scenarios lanes gaps args.concurrency args.catalog
    ok (record {
      benchmark = manifest;
      lanes = lanes;
      covered_cells = length manifest.scenarios * length lanes - length gaps;
      possible_cells = length manifest.scenarios * length lanes;
      gaps = gaps;
      estimated = estimated;
      commands = commands;
    })

  -- How the parts of a plan fit: the lanes are those selected, the gaps those that the local coverage
  -- leaves among them, and the commands fill the gaps.
  pub record IsPlan (args : PlanArgs F) (plan : PlanReport F) : Type 0 where
    pub manifest : args.manifest ≡ ok plan.benchmark
    pub selected :
        selected_lanes args.fleet args.models args.reasoning_efforts args.providers ≡ ok plan.lanes
    pub covered : Dict Cell ℤ
    pub local : local_coverage plan.benchmark args.sources [] ≡ ok covered
    pub missing :
        GapsOf (is_uncovered plan.benchmark covered) plan.lanes plan.benchmark.scenarios plan.gaps
    pub filled : All (IsFilled plan.commands) plan.gaps
    pub cells : plan.covered_cells + length plan.gaps ≡ plan.possible_cells
    pub ports : Packed plan.benchmark args.concurrency (to_nat args.base_port) plan.commands
    pub base : 0 < to_nat args.base_port
