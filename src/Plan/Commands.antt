-- ===== src/Plan/Commands.antt =====
-- `build_commands` of integrations/host/benchmark_plan.py. The attempts of a manifest are the
-- positive number that its loader admits, the base port the one that `build_plan` has tested.
pub mod Ports
pub mod Covers
use replaybook.Prelude.{
  ℕ, ◌+◌, ◌-◌, ◌*◌, String, Bool, true, false, not, Option, none, some, List, [], ◌∷◌, ◌++◌, map,
  length, ltb, leb, nat_beq, if◌then◌else◌,
}
use replaybook.Prelude.Int.{ℤ, to_nat, int_beq, int_eq}
use replaybook.Prelude.Eq.{◌==◌, string_eq, option_eq, list_eq, pair_eq, unique}
use replaybook.Prelude.Text.{decimal, int_text}
use replaybook.Prelude.Order.{string_leb, sort}
use replaybook.Prelude.Groups.{group_into}
use replaybook.Prelude.Dict.{Dict}
use replaybook.Prelude.Result.{
  Result, ok, err, key_error, index_error, value_error, raise_if, ◌>>=◌, ◌>>◌, map_result,
}
use replaybook.Manifest.{BenchmarkManifest, BenchmarkScenario}
use replaybook.Matrix.Results.{path_text}
use replaybook.Matrix.Report.{or_empty, then_by}
use replaybook.Plan.Lanes.{Lane, provider_id}
use replaybook.Plan.Gaps.{Gap}

pub record CommandPlan : Type 0 where
  pub scenarios : List String
  pub provider : Option String
  pub models : List String
  pub reasoning_effort : Option String
  pub trials : ℕ
  pub base_port : ℕ
  pub command : List String

-- `manifest_order[id]`, counted from `index`; the last entry of an id counts.
abbrev pub order_from : ℕ → List BenchmarkScenario → String → Option ℕ
order_from index [] id = none
order_from index (item ∷ items) id = elim (order_from (index + 1) items id) [
  | some i ↦ some i
  | none ↦ if item.id == id then some index else none
]

abbrev pub or_missing : {A : Type 0} → Option A → Result A
or_missing none = err key_error
or_missing (some a) = ok a

abbrev pub manifest_order : BenchmarkManifest → String → Result ℕ
manifest_order manifest id = or_missing (order_from 0 manifest.scenarios id)

-- `(provider, reasoning_effort, scenarios)`
abbrev pub GroupKey : Type 0
GroupKey = Option String × (Option String × List String)

abbrev pub indexed_id : BenchmarkManifest → String → Result (ℕ × String)
indexed_id manifest id = manifest_order manifest id >>= λ index. ok (index, id)

-- One round of the second loop: the scenarios that a lane misses, in the order of the manifest.
abbrev pub lane_entry : BenchmarkManifest → Lane × List Gap → Result (GroupKey × String)
lane_entry manifest (lane, gaps) =
    map_result (indexed_id manifest) (unique (map (λ gap. gap.scenario) gaps)) >>= λ indexed.
    ok ((lane.0, (lane.1.1, map (λ p. p.1) (sort (λ p q. leb p.0 q.0) indexed))), lane.1.0)

abbrev pub first_of : List String → Result String
first_of [] = err index_error
first_of (x ∷ xs) = ok x

-- A group with the key that it is sorted by.
abbrev pub Ranked : Type 0
Ranked = (ℕ × String) × (GroupKey × List String)

abbrev pub rank : BenchmarkManifest → GroupKey × List (GroupKey × String) → Result Ranked
rank manifest (key, entries) = do
  first ← first_of key.1.1
  index ← manifest_order manifest first
  ok ((index, or_empty key.0), (key, map (λ e. e.1) entries))

abbrev pub ranked_leb : Ranked → Ranked → Bool
ranked_leb ((i, p), _) ((j, q), _) = if nat_beq i j then string_leb p q else ltb i j

abbrev pub flag_each : List String → List String
flag_each [] = []
flag_each (scenario ∷ scenarios) = "--scenario" ∷ scenario ∷ flag_each scenarios

abbrev pub option_flag : String → Option String → List String
option_flag flag none = []
option_flag flag (some value) = flag ∷ value ∷ []

-- `len(scenarios) * len(models) * manifest.attempts`
abbrev pub trials_of : BenchmarkManifest → List String → List String → ℕ
trials_of manifest scenarios models = length scenarios * length models * to_nat manifest.attempts

module _ (manifest : BenchmarkManifest) (concurrency : ℤ) where
  abbrev pub command_of : GroupKey → List String → ℕ → List String
  command_of (provider, (effort, scenarios)) models next_port =
      "python"
        ∷ "integrations/host/run_host_matrix.py"
        ∷ "--benchmark"
        ∷ path_text manifest.path
        ∷ []
      ++ flag_each scenarios
      ++ "--models" ∷ models
      ++ option_flag "--agent-provider" (provider_id provider)
      ++ option_flag "--reasoning-efforts" effort
      ++ "--concurrency" ∷ int_text concurrency ∷ "--base-port" ∷ decimal next_port ∷ []

  abbrev pub command_plan : GroupKey → List String → ℕ → CommandPlan
  command_plan key models next_port = record {
    scenarios = key.1.1;
    provider = key.0;
    models = models;
    reasoning_effort = key.1.0;
    trials = trials_of manifest key.1.1 models;
    base_port = next_port;
    command = command_of key models next_port;
  }

  -- The last loop, over the sorted groups. The test `next_port + trials * 2 - 1 > 65535` is on
  -- integers, where the left side is at least 0 since ports are.
  unfoldable pub plan_loop : List Ranked → ℕ → Result (List CommandPlan)
  plan_loop [] next_port = ok []
  plan_loop ((_, (key, models)) ∷ groups) next_port =
      let ordered_models = sort string_leb models in
      let trials = trials_of manifest key.1.1 ordered_models in
      raise_if (ltb 65536 (next_port + trials * 2))
        "planned matrices exceed the available host port range"
      >> (plan_loop groups (next_port + trials * 2) >>= λ plans.
          ok (command_plan key ordered_models next_port ∷ plans))

  unfoldable pub build_commands : List Gap → ℕ → Result (List CommandPlan)
  unfolding plan_loop group_into
  build_commands gaps base_port = do
    entries ← map_result (lane_entry manifest) (group_into (λ gap. gap.lane) gaps [])
    ranked ← map_result (rank manifest) (group_into (λ e. e.0) entries [])
    plan_loop (sort ranked_leb ranked) base_port
