-- ===== src/Matrix/Args.antt =====
-- The arguments of integrations/host/run_host_matrix.py: `apply_benchmark_manifest`,
-- `validate_args` and `validate_resume_args`.
pub mod Guards
pub mod Runnable
pub mod Selection
use Prim.Native.Char.{Char, code}
use Prim.Native.String
use replaybook.Prelude.{
  ℕ, String, Bool, true, false, not, ◌&&◌, ◌||◌, Option, none, some, List, [], ◌∷◌, ◌++◌, map,
  is_nil, any, filter, nat_beq, if◌then◌else◌,
}
use replaybook.Prelude.Int.{ℤ, pos, is_positive, int_beq}
use replaybook.Prelude.Eq.{◌==◌, string_eq, elem, unique}
use replaybook.Prelude.Text.{FilePath, ◌<>◌, is_alnum}
use replaybook.Prelude.Order.{string_leb, join, sort}
use replaybook.Prelude.Result.{Result, ok, err, value_error, type_error, raise_if, ◌>>=◌, ◌>>◌}
use replaybook.Manifest.{BenchmarkManifest}

-- What `parse_args` returns.
pub record Args : Type 0 where
  pub benchmark : Option FilePath
  pub scenarios : Option (List String)
  pub scenario_packs : Option (List FilePath)
  pub models : Option (List String)
  pub reasoning_efforts : Option (List String)
  pub attempts : Option ℤ
  pub concurrency : ℤ
  pub agent_timeout_seconds : Option ℤ
  pub base_port : ℤ
  pub output_dir : Option FilePath
  pub resume : Option FilePath
  pub refresh_controller : Bool
  pub retry_unavailable : Bool
  pub claux_binary : Option FilePath
  pub claux_release : Option String
  pub agent_adapter : Option FilePath
  pub agent_payload : Option FilePath
  pub agent_config : Option FilePath
  pub agent_env_file : Option FilePath
  pub agent_name : Option String
  pub agent_provider : Option String
  pub oracle : Bool
  pub check : Bool
  pub list_scenarios : Bool

abbrev pub supported_efforts : List String
supported_efforts = "none" ∷ "minimal" ∷ "low" ∷ "medium" ∷ "high" ∷ "xhigh" ∷ "max" ∷ []

abbrev pub default_scenario : String
default_scenario = "013-sidekiq-wrong-redis"

abbrev pub default_timeout : ℤ
default_timeout = pos 900

abbrev pub is_none {ℓ} : {A : Type ℓ} → Option A → Bool
is_none none = true
is_none (some a) = false

-- The truth of a path or `None`, of a list or `None`, of a text or `None`, of a number or `None`.
abbrev pub given {ℓ} : {A : Type ℓ} → Option A → Bool
given o = not (is_none o)

abbrev pub given_list {ℓ} : {A : Type ℓ} → Option (List A) → Bool
given_list none = false
given_list (some xs) = not (is_nil xs)

abbrev pub given_text : Option String → Bool
given_text none = false
given_text (some s) = not (s == "")

abbrev pub given_number : Option ℤ → Bool
given_number none = false
given_number (some z) = not (int_beq z (pos 0))

abbrev pub list_or {ℓ} : {A : Type ℓ} → Option (List A) → List A → List A
list_or none d = d
list_or (some []) d = d
list_or (some (x ∷ xs)) d = x ∷ xs

-- `[A-Za-z0-9._-]`
abbrev pub is_id_char : Char → Bool
is_id_char c = is_alnum c || nat_beq (code c) b'.' || nat_beq (code c) b'_' || nat_beq (code c) b'-'

abbrev pub all_id_chars : String → Bool
all_id_chars String.[] = true
all_id_chars (String.◌∷◌ c s) = is_id_char c && all_id_chars s

-- `SCENARIO_ID_PATTERN.fullmatch(s)`
unfoldable pub is_scenario_id : String → Bool
is_scenario_id String.[] = false
is_scenario_id (String.◌∷◌ c s) = is_alnum c && all_id_chars s

-- `value <= 0`, which raises TypeError on `None`.
abbrev pub require_positive : Option ℤ → String → Result (Unit {0})
require_positive none text = err type_error
require_positive (some z) text = raise_if (not (is_positive z)) text

-- `sorted(set(xs) - set(ys))`
abbrev pub sorted_difference : List String → List String → List String
sorted_difference xs ys = sort string_leb (unique (filter (λ x. not (elem x ys)) xs))

-- `if difference: raise ValueError(text + ", ".join(sorted(difference)))`
abbrev pub require_subset : List String → List String → String → Result (Unit {0})
require_subset xs ys text =
    raise_if (not (is_nil (sorted_difference xs ys))) (text <> join (sorted_difference xs ys))

abbrev pub conflict_if : Bool → String → List String
conflict_if b flag = if b then flag ∷ [] else []

unfoldable pub manifest_conflicts : Args → List String
manifest_conflicts args =
    conflict_if (given_list args.scenario_packs) "--scenario-pack"
    ++ conflict_if (given args.attempts) "--attempts"
    ++ conflict_if (given args.agent_timeout_seconds) "--agent-timeout-seconds"

abbrev pub number_or : Option ℤ → ℤ → ℤ
number_or none d = d
number_or (some z) d = z

-- `args.scenarios or [scenario.id for scenario in manifest.scenarios]`
abbrev pub selected_scenarios : Args → BenchmarkManifest → List String
selected_scenarios args manifest = list_or args.scenarios (map (λ s. s.id) manifest.scenarios)

-- The branch of `apply_benchmark_manifest` with a manifest.
unfoldable pub apply_manifest : Args → BenchmarkManifest → Result Args
unfolding manifest_conflicts
apply_manifest args manifest = do
  raise_if (not (is_nil (manifest_conflicts args))) (
      "--benchmark defines scenarios, packs, attempts, and timeout; remove "
      <> join (manifest_conflicts args))
  require_subset (selected_scenarios args manifest) (map (λ s. s.id) manifest.scenarios)
      "--scenario is not declared by the benchmark: "
  ok (record args {
    scenario_packs = some (manifest.pack_path ∷ []);
    scenarios = some (selected_scenarios args manifest);
    attempts = some (if args.oracle then pos 1 else manifest.attempts);
    agent_timeout_seconds = some manifest.agent_timeout_seconds;
  })

-- The changed arguments and the manifest, for a reader of manifest files.
unfoldable pub apply_benchmark_manifest :
    (FilePath → Result BenchmarkManifest) → Args → Result (Args × Option BenchmarkManifest)
unfolding apply_manifest
apply_benchmark_manifest load_benchmark_manifest args = elim args.benchmark [
  | none ↦ ok (
    record args {
      attempts = some (number_or args.attempts (pos 1));
      agent_timeout_seconds = some (number_or args.agent_timeout_seconds default_timeout);
    },
    none,
  )
  | some path ↦ load_benchmark_manifest path >>= λ manifest.
      apply_manifest args manifest >>= λ changed. ok (changed, some manifest)
]

-- The loop over the scenarios; `available` holds the names of the discovered ones.
unfoldable pub check_scenarios : List String → List String → Result (Unit {0})
check_scenarios available [] = ok tt
check_scenarios available (scenario ∷ scenarios) =
    raise_if (not (is_scenario_id scenario) || not (elem scenario available))
      ("unknown host-native scenario: " <> scenario)
    >> check_scenarios available scenarios

abbrev pub check_efforts : Option (List String) → Result (Unit {0})
check_efforts efforts =
    require_subset (list_or efforts []) supported_efforts "unsupported reasoning effort: "

-- `args.agent_name and not SCENARIO_ID_PATTERN.fullmatch(args.agent_name)`
abbrev pub is_unsafe : Option String → Bool
is_unsafe none = false
is_unsafe (some s) = not (s == "") && not (is_scenario_id s)

-- The conditions of four of the guards.
abbrev pub has_agent_option : Args → Bool
has_agent_option args =
    given args.agent_adapter
    || given args.agent_payload
    || given args.agent_config
    || given args.agent_env_file
    || given_text args.agent_name
    || given_text args.agent_provider

abbrev pub has_custom_option : Args → Bool
has_custom_option args =
    given args.agent_payload
    || given args.agent_config
    || given args.agent_env_file
    || given_text args.agent_name

abbrev pub lacks_models : Args → Bool
lacks_models args =
    not args.oracle && not (given_list args.models) && not args.list_scenarios && not args.check

abbrev pub lacks_provider : Args → Bool
lacks_provider args =
    not args.oracle
    && not args.list_scenarios
    && not args.check
    && not (given_text args.agent_provider)

unfoldable pub validate_args : Args → List String → Result (Unit {0})
validate_args args available = do
  require_positive args.attempts "--attempts must be a positive integer"
  raise_if (not (is_positive args.concurrency)) "--concurrency must be a positive integer"
  require_positive args.agent_timeout_seconds "--agent-timeout-seconds must be a positive integer"
  raise_if (args.oracle && given_list args.models) "--oracle cannot be combined with --models"
  raise_if (args.oracle && args.check) "--oracle cannot be combined with --check"
  raise_if (args.oracle && given_list args.reasoning_efforts)
      "--oracle cannot be combined with --reasoning-efforts"
  raise_if (args.oracle && has_agent_option args)
      "--oracle cannot be combined with agent adapter options"
  raise_if (is_none args.agent_adapter && has_custom_option args)
      "custom agent options require --agent-adapter"
  check_efforts args.reasoning_efforts
  raise_if (is_unsafe args.agent_name) "--agent-name contains unsafe characters"
  raise_if (is_unsafe args.agent_provider) "--agent-provider contains unsafe characters"
  raise_if (given args.agent_adapter && given args.claux_binary)
      "--agent-adapter cannot be combined with --claux-binary"
  raise_if (given args.agent_adapter && given_text args.claux_release)
      "--agent-adapter cannot be combined with --claux-release"
  raise_if (lacks_models args) "--models is required unless --oracle is used"
  raise_if (lacks_provider args)
      "--agent-provider is required for model runs; use --oracle for oracle runs"
  check_scenarios available (unique (list_or args.scenarios (default_scenario ∷ [])))

-- The options that `--resume` excludes.
unfoldable pub resume_conflicts : Args → List String
resume_conflicts args =
    conflict_if (given args.benchmark) "--benchmark"
    ++ conflict_if (given_list args.scenarios) "--scenario"
    ++ conflict_if (given_list args.scenario_packs) "--scenario-pack"
    ++ conflict_if (given_list args.models) "--models"
    ++ conflict_if (given_list args.reasoning_efforts) "--reasoning-efforts"
    ++ conflict_if (given_number args.attempts) "--attempts"
    ++ conflict_if (given_number args.agent_timeout_seconds) "--agent-timeout-seconds"
    ++ conflict_if
        (not (int_beq args.base_port (pos 22600)) && not (int_beq args.base_port (pos 0)))
        "--base-port"
    ++ conflict_if (given args.output_dir) "--output-dir"
    ++ conflict_if (given args.claux_binary) "--claux-binary"
    ++ conflict_if (given_text args.claux_release) "--claux-release"
    ++ conflict_if (given args.agent_adapter) "--agent-adapter"
    ++ conflict_if (given args.agent_payload) "--agent-payload"
    ++ conflict_if (given args.agent_config) "--agent-config"
    ++ conflict_if (given_text args.agent_name) "--agent-name"
    ++ conflict_if (given_text args.agent_provider) "--agent-provider"
    ++ conflict_if args.oracle "--oracle"
    ++ conflict_if args.check "--check"
    ++ conflict_if args.list_scenarios "--list-scenarios"

unfoldable pub validate_resume_args : Args → Result (Unit {0})
unfolding resume_conflicts
validate_resume_args args = do
  raise_if (args.refresh_controller && is_none args.resume) "--refresh-controller requires --resume"
  raise_if (args.retry_unavailable && is_none args.resume) "--retry-unavailable requires --resume"
  raise_if (not (is_nil (resume_conflicts args)))
      ("--resume cannot be combined with " <> join (resume_conflicts args))
  raise_if (not (is_positive args.concurrency)) "--concurrency must be a positive integer"
