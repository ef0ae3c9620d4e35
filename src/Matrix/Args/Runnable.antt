-- ===== src/Matrix/Args/Runnable.antt =====
-- What `validate_args` of run_host_matrix.py accepts.
use replaybook.Prelude.{
  ◌≡◌, ◌↔◌, refl, String, Bool, true, false, not, ◌&&◌, ◌||◌, some, List, [], ◌∷◌, All, arith,
}
use replaybook.Prelude.Int.{ℤ, is_positive}
use replaybook.Prelude.Eq.{string_eq, elem, unique}
use replaybook.Prelude.Result.{raise_if-ok, ok}
use replaybook.Matrix.Args.{
  Args, supported_efforts, default_scenario, is_none, given, given_list, given_text, list_or,
  is_scenario_id, is_unsafe, validate_args, has_agent_option, has_custom_option, lacks_models,
  lacks_provider,
}
use replaybook.Matrix.Args.Guards.{
  require_subset-ok, require_positive-ok, check_scenarios-ok, not-false, sorted_difference-is_nil,
}

-- What a run of the matrix needs of its arguments.
pub record IsRunnable (args : Args) (available : List String) : Type 0 where
  pub attempts : (z : ℤ) × (args.attempts ≡ some z) × (is_positive z ≡ true)
  pub concurrency : is_positive args.concurrency ≡ true
  pub timeout : (z : ℤ) × (args.agent_timeout_seconds ≡ some z) × (is_positive z ≡ true)
  -- An oracle run has neither models nor an agent.
  pub oracle :
      args.oracle ≡ true
      → (given_list args.models ≡ false)
        × (args.check ≡ false)
        × (given_list args.reasoning_efforts ≡ false)
        × (given args.agent_adapter ≡ false)
        × (given args.agent_payload ≡ false)
        × (given args.agent_config ≡ false)
        × (given args.agent_env_file ≡ false)
        × (given_text args.agent_name ≡ false)
        × (given_text args.agent_provider ≡ false)
  -- The options of a custom agent stand beside an adapter.
  pub custom :
      given args.agent_adapter ≡ false
      → (given args.agent_payload ≡ false)
        × (given args.agent_config ≡ false)
        × (given args.agent_env_file ≡ false)
        × (given_text args.agent_name ≡ false)
  pub efforts : All (λ e. elem e supported_efforts ≡ true) (list_or args.reasoning_efforts [])
  pub name : is_unsafe args.agent_name ≡ false
  pub provider : is_unsafe args.agent_provider ≡ false
  -- An adapter excludes the options of the bundled agent.
  pub bundled :
      given args.agent_adapter ≡ true
      → (given args.claux_binary ≡ false) × (given_text args.claux_release ≡ false)
  -- A run of models names them and their provider.
  pub models :
      args.oracle ≡ false
      → args.list_scenarios ≡ false
      → args.check ≡ false
      → (given_list args.models ≡ true) × (given_text args.agent_provider ≡ true)
  pub scenarios :
      All
        (λ s. (is_scenario_id s ≡ true) × (elem s available ≡ true))
        (unique (list_or args.scenarios (default_scenario ∷ [])))

-- The guards on oracle runs, on custom agents, on adapters and on runs of models, over their tests.
oracle_guards :
    (oracle models check efforts adapter payload config env name provider : Bool)
    → (((oracle && models) ≡ false)
        × ((oracle && check) ≡ false)
        × ((oracle && efforts) ≡ false)
        × ((oracle && (adapter || payload || config || env || name || provider)) ≡ false))
      ↔ (oracle ≡ true
          → (models ≡ false)
            × (check ≡ false)
            × (efforts ≡ false)
            × (adapter ≡ false)
            × (payload ≡ false)
            × (config ≡ false)
            × (env ≡ false)
            × (name ≡ false)
            × (provider ≡ false))
oracle_guards true m c e a p f v n r = ((λ h. λ _. ground arith), (λ h. ground (arith, h refl)))
oracle_guards false m c e a p f v n r = ((λ h. λ k. absurd cc), (λ h. (refl, refl, refl, refl)))

custom_guard :
    (lacks payload config env name : Bool)
    → ((lacks && (payload || config || env || name)) ≡ false)
      ↔ (not lacks ≡ false → (payload ≡ false) × (config ≡ false) × (env ≡ false) × (name ≡ false))
custom_guard true p c e n = ((λ h. λ _. ground arith), (λ h. ground (arith, h refl)))
custom_guard false p c e n = ((λ h. λ k. absurd cc), (λ h. refl))

bundled_guards :
    (adapter binary release : Bool)
    → (((adapter && binary) ≡ false) × ((adapter && release) ≡ false))
      ↔ (adapter ≡ true → (binary ≡ false) × (release ≡ false))
bundled_guards true b r = ((λ h. λ _. h), (λ h. h refl))
bundled_guards false b r = ((λ h. λ k. absurd cc), (λ h. (refl, refl)))

model_guards :
    (oracle models list check provider : Bool)
    → (((not oracle && not models && not list && not check) ≡ false)
        × ((not oracle && not list && not check && not provider) ≡ false))
      ↔ (oracle ≡ false → list ≡ false → check ≡ false → (models ≡ true) × (provider ≡ true))
model_guards true m l c p = ((λ h. λ k. absurd cc), (λ h. (refl, refl)))
model_guards false m true c p = ((λ h. λ _ k. absurd cc), (λ h. ground arith))
model_guards false m false true p = ((λ h. λ _ _ k. absurd cc), (λ h. ground arith))
model_guards false m false false p =
    ((λ h. λ _ _ _. ground arith), (λ h. ground (arith, h refl refl refl)))

module _ (args : Args) (available : List String) where
  validate_args-IsRunnable : validate_args args available ≡ ok tt → IsRunnable args available
  unfolding validate_args
  validate_args-IsRunnable h =
      let (attempts, h₁) = (require_positive-ok args.attempts _ _).0 h in
      let (concurrency, h₂) = (raise_if-ok (not (is_positive args.concurrency)) _ _).0 h₁ in
      let (timeout, h₃) = (require_positive-ok args.agent_timeout_seconds _ _).0 h₂ in
      let (o₁, h₄) = (raise_if-ok (args.oracle && given_list args.models) _ _).0 h₃ in
      let (o₂, h₅) = (raise_if-ok (args.oracle && args.check) _ _).0 h₄ in
      let (o₃, h₆) = (raise_if-ok (args.oracle && given_list args.reasoning_efforts) _ _).0 h₅ in
      let (o₄, h₇) = (raise_if-ok (args.oracle && has_agent_option args) _ _).0 h₆ in
      let (c, h₈) = (raise_if-ok (is_none args.agent_adapter && has_custom_option args) _ _).0 h₇ in
      let (efforts, h₉) =
        (require_subset-ok (list_or args.reasoning_efforts []) supported_efforts _ _).0 h₈ in
      let (name, h₁₀) = (raise_if-ok (is_unsafe args.agent_name) _ _).0 h₉ in
      let (provider, h₁₁) = (raise_if-ok (is_unsafe args.agent_provider) _ _).0 h₁₀ in
      let (b₁, h₁₂) =
        (raise_if-ok (given args.agent_adapter && given args.claux_binary) _ _).0 h₁₁ in
      let (b₂, h₁₃) =
        (raise_if-ok (given args.agent_adapter && given_text args.claux_release) _ _).0 h₁₂ in
      let (m₁, h₁₄) = (raise_if-ok (lacks_models args) _ _).0 h₁₃ in
      let (m₂, h₁₅) = (raise_if-ok (lacks_provider args) _ _).0 h₁₄ in
      record {
        attempts = attempts;
        concurrency = not-false (is_positive args.concurrency) concurrency;
        timeout = timeout;
        oracle = (oracle_guards args.oracle _ _ _ _ _ _ _ _ _).0 (o₁, o₂, o₃, o₄);
        custom = (custom_guard (is_none args.agent_adapter) _ _ _ _).0 c;
        efforts = efforts;
        name = name;
        provider = provider;
        bundled = (bundled_guards (given args.agent_adapter) _ _).0 (b₁, b₂);
        models =
            (model_guards args.oracle (given_list args.models) args.list_scenarios args.check
                (given_text args.agent_provider)).0
              (m₁, m₂);
        scenarios = (check_scenarios-ok available _).0 h₁₅;
      }

  IsRunnable-validate_args : IsRunnable args available → validate_args args available ≡ ok tt
  unfolding validate_args
  IsRunnable-validate_args r =
      let (o₁, o₂, o₃, o₄) = (oracle_guards args.oracle _ _ _ _ _ _ _ _ _).1 r.oracle in
      let (b₁, b₂) = (bundled_guards (given args.agent_adapter) _ _).1 r.bundled in
      let (m₁, m₂) =
        (model_guards args.oracle (given_list args.models) args.list_scenarios args.check
            (given_text args.agent_provider)).1
          r.models in
      let (_, attempts, positive) = r.attempts in
      let (_, timeout, long) = r.timeout in
      let c = (custom_guard (is_none args.agent_adapter) _ _ _ _).1 r.custom in
      let efforts =
        (sorted_difference-is_nil (list_or args.reasoning_efforts []) supported_efforts).1
          r.efforts in
      let scenarios = (check_scenarios-ok available _).1 r.scenarios in
      rw
        (
          attempts, positive, r.concurrency, timeout, long, o₁, o₂, o₃, o₄, c, efforts, r.name,
          r.provider, b₁, b₂, m₁, m₂,
        )
        scenarios

-- `validate_args` passes exactly the arguments of a runnable matrix, which are described without
-- regard to the order of the checks.
pub validate_args_iff :
    (args : Args) (available : List String)
    → (validate_args args available ≡ ok tt) ↔ IsRunnable args available
validate_args_iff args available =
    (validate_args-IsRunnable args available, IsRunnable-validate_args args available)
