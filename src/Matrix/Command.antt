-- ===== src/Matrix/Command.antt =====
-- The command line of a worker, as `run_worker` of integrations/host/run_host_matrix.py builds it.
use replaybook.Prelude.{String, Option, none, some, List, [], ◌∷◌, ◌++◌}
use replaybook.Prelude.Int.{ℤ}
use replaybook.Prelude.Eq.{string_eq}
use replaybook.Prelude.Text.{FilePath, decimal, int_text}
use replaybook.Matrix.Jobs.{Job}
use replaybook.Matrix.Results.{path_text}

-- The options that `run_jobs` hands to every worker.
pub record WorkerOptions : Type 0 where
  pub runner : FilePath
  pub agent_timeout_seconds : ℤ
  pub agent_adapter : Option FilePath
  pub agent_payload : Option FilePath
  pub agent_config : Option FilePath
  pub agent_env_file : Option FilePath
  pub agent_name : Option String
  pub agent_provider : Option String
  pub scenario_pack_dirs : List FilePath

abbrev pub option : String → Option String → List String
option flag none = []
option flag (some value) = flag ∷ value ∷ []

abbrev pub path_option : String → Option FilePath → List String
path_option flag none = []
path_option flag (some path) = flag ∷ path_text path ∷ []

abbrev pub pack_options : List FilePath → List String
pack_options [] = []
pack_options (dir ∷ dirs) = "--scenario-pack" ∷ path_text dir ∷ pack_options dirs

-- The part that a model run has and an oracle run has not.
unfoldable pub agent_arguments : WorkerOptions → Job → String → List String
agent_arguments o job model =
    "--model" ∷ model ∷ []
    ++ option "--reasoning-effort" job.reasoning_effort
    ++ path_option "--agent-adapter" o.agent_adapter
    ++ path_option "--agent-payload" o.agent_payload
    ++ path_option "--agent-config" o.agent_config
    ++ path_option "--agent-env-file" o.agent_env_file
    ++ option "--agent-name" o.agent_name
    ++ option "--agent-provider" o.agent_provider

unfoldable pub worker_command : WorkerOptions → Job → List String
unfolding agent_arguments
worker_command o job =
    "bash"
      ∷ path_text o.runner
      ∷ "--scenario"
      ∷ job.scenario
      ∷ "--ssh-port"
      ∷ decimal job.ssh_port
      ∷ "--http-port"
      ∷ decimal job.http_port
      ∷ "--output-dir"
      ∷ path_text job.output_dir
      ∷ "--agent-timeout-seconds"
      ∷ int_text o.agent_timeout_seconds
      ∷ []
    ++ pack_options o.scenario_pack_dirs
    ++ elim job.model [ none ↦ "--oracle" ∷ [] | some model ↦ agent_arguments o job model ]
