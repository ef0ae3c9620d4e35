-- ===== src/Tests/Args.antt =====
-- Arguments of a model run.
use replaybook.Prelude.{◌≡◌, ◌↔◌, refl, true, false, String, Option, none, some, List, [], ◌∷◌}
use replaybook.Prelude.Int.{pos}
use replaybook.Prelude.Result.{ok}
use replaybook.Matrix.Args.{Args, apply_manifest, validate_args}
use replaybook.Matrix.Args.Runnable.{IsRunnable, validate_args_iff}
use replaybook.Matrix.Args.Selection.{IsSelection, with_manifest, apply_manifest_iff}
use replaybook.Tests.Data.{manifest_013}

abbrev model_run : Args
model_run = record {
  benchmark = some ("benchmark.toml" ∷ []);
  scenarios = none;
  scenario_packs = none;
  models = some ("a" ∷ []);
  reasoning_efforts = some ("high" ∷ []);
  attempts = none;
  concurrency = pos 2;
  agent_timeout_seconds = none;
  base_port = pos 22600;
  output_dir = none;
  resume = none;
  refresh_controller = false;
  retry_unavailable = false;
  claux_binary = none;
  claux_release = none;
  agent_adapter = none;
  agent_payload = none;
  agent_config = none;
  agent_env_file = none;
  agent_name = none;
  agent_provider = some "p";
  oracle = false;
  check = false;
  list_scenarios = false;
}

apply_manifest_iff_example :
    (apply_manifest model_run manifest_013 ≡ ok (with_manifest model_run manifest_013)) ↔ (
      IsSelection model_run manifest_013
      × (with_manifest model_run manifest_013 ≡ with_manifest model_run manifest_013))
apply_manifest_iff_example =
    apply_manifest_iff model_run (with_manifest model_run manifest_013) manifest_013

validate_args_iff_example :
    (validate_args (with_manifest model_run manifest_013) ("013" ∷ []) ≡ ok tt)
    ↔ IsRunnable (with_manifest model_run manifest_013) ("013" ∷ [])
validate_args_iff_example = validate_args_iff (with_manifest model_run manifest_013) ("013" ∷ [])

-- The run above is applied, and passes.
applied : apply_manifest model_run manifest_013 ≡ ok (with_manifest model_run manifest_013)
unfolding apply_manifest replaybook.Prelude.Order.sort replaybook.Prelude.Eq.unique
applied = refl

validated : validate_args (with_manifest model_run manifest_013) ("013" ∷ []) ≡ ok tt
unfolding validate_args replaybook.Prelude.Order.sort replaybook.Prelude.Eq.unique
    replaybook.Matrix.Args.is_scenario_id replaybook.Matrix.Args.check_scenarios
validated = refl
