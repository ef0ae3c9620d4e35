-- ===== src/Tests/Manifest.antt =====
-- A manifest file with one scenario.
use replaybook.Prelude.{
  ℕ, ◌≡◌, refl, String, true, false, Option, none, some, List, [], ◌∷◌, ◌++◌, All,
}
use replaybook.Prelude.Int.{pos, int_beq}
use replaybook.Prelude.Eq.{◌==◌, string_eq}
use replaybook.Prelude.Text.{FilePath}
use replaybook.Prelude.Result.{ok}
use replaybook.Json.{Value, bool, int, str, arr, obj, nil, cons, Fields, end, field}
use replaybook.Manifest.{BenchmarkManifest}
use replaybook.Manifest.Load.{missing, parsed, load_benchmark_manifest}
use replaybook.Manifest.Discover.{ScenarioDir, PackDir, Discovered, discover}
use replaybook.Manifest.Discover.Different.{IsDiscovery, discover-IsDiscovery}
use replaybook.Manifest.Valid.{IsValid, load_benchmark_manifest-IsValid}
use replaybook.Manifest.Environment.{
  ScenarioPack, Scenario, other_version, IsDiscovered, validate_environment,
  validate_environment-IsDiscovered,
}
use replaybook.Tests.Data.{nat_floats, manifest_013}

abbrev document : Fields ℕ
document = field "schema_version" (int (pos 1)) (
    field "benchmark"
      (obj (
        field "id" (str "core") (
          field "version" (str "1") (
            field "attempts" (int (pos 3)) (
              field "agent_timeout_seconds" (int (pos 60))
                (field "required_host_harness_version" (int (pos 23)) end))))))
      (field "pack" (obj (field "id" (str "bundled") (field "path" (str "scenarios") end))) (
        field "verification"
          (obj (
            field "require_immediate_recovery" (bool true) (
              field "require_service_restart" (bool true) (
                field "require_host_reboot" (bool true)
                  (field "preserve_controller_state" (bool true) end)))))
          (field "scenarios"
            (arr (cons (obj (field "id" (str "013") (field "version" (int (pos 2)) end))) nil))
            end))))

abbrev resolve : FilePath → String → FilePath
resolve path part = path ++ part ∷ []

loaded :
    (m : BenchmarkManifest) × (load_benchmark_manifest resolve
        ("bench" ∷ "benchmark.toml" ∷ [])
        (parsed document "0")
      ≡ ok m)
unfolding load_benchmark_manifest replaybook.Json.Access.get
loaded = (_, refl)

load_benchmark_manifest-IsValid_example : IsValid loaded.0
load_benchmark_manifest-IsValid_example =
    load_benchmark_manifest-IsValid resolve ("bench" ∷ "benchmark.toml" ∷ []) (parsed document "0")
      loaded.0 loaded.1

abbrev bundled : ScenarioPack
bundled = record { id = "bundled"; version = "1"; path = "scenarios" ∷ [] }

abbrev scenario_013 : Scenario
scenario_013 = record {
  id = "013";
  version = pos 2;
  path = "scenarios" ∷ "013" ∷ [];
  pack = bundled;
}

environment :
    validate_environment manifest_013 (bundled ∷ []) (("013", scenario_013) ∷ []) (pos 23) ≡ ok tt
unfolding validate_environment replaybook.Prelude.Dict.lookup
environment = refl

validate_environment-IsDiscovered_example :
    (int_beq (pos 23) manifest_013.required_host_harness_version ≡ true)
    × ((pack : ScenarioPack) × (bundled ∷ [] ≡ pack ∷ [])
        × ((pack.id == manifest_013.pack_id) ≡ true)
        × (other_version manifest_013.pack_version pack.version ≡ false))
    × All (IsDiscovered (("013", scenario_013) ∷ [])) manifest_013.scenarios
validate_environment-IsDiscovered_example =
    validate_environment-IsDiscovered manifest_013 (bundled ∷ []) (("013", scenario_013) ∷ [])
      (pos 23) environment

abbrev pack_document : String → Fields ℕ
pack_document id = field "pack" (obj (field "id" (str id) (field "version" (str "1") end))) end

abbrev pack_dir : String → List (ScenarioDir ℕ) → PackDir ℕ
pack_dir id children = record {
  path = id ∷ [];
  manifest = id ∷ "replaybook-pack.toml" ∷ [];
  is_dir = true;
  file = parsed (pack_document id) "0";
  children = children;
}

abbrev scenario_dirs : List (ScenarioDir ℕ)
scenario_dirs =
    record {
      name = "013";
      path = "013" ∷ [];
      typed = parsed (field "scenario" (obj (field "version" (int (pos 2)) end)) end) "0";
      legacy = none;
    }
    ∷ record {
      name = "014";
      path = "014" ∷ [];
      typed = missing;
      legacy = some "A=b\nSCENARIO_VERSION=\"12\"\n";
    }
    ∷ []

discovered :
    (d : Discovered) × (discover (pack_dir "bundled" scenario_dirs ∷ pack_dir "extra" [] ∷ [])
      ≡ ok d)
unfolding discover replaybook.Json.Access.get replaybook.Matrix.Args.is_scenario_id
discovered = (_, refl)

discover-IsDiscovery_example : IsDiscovery discovered.0
discover-IsDiscovery_example =
    discover-IsDiscovery (pack_dir "bundled" scenario_dirs ∷ pack_dir "extra" [] ∷ []) discovered.0
      discovered.1
