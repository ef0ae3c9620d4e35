-- ===== src/Matrix/Results/Completed.antt =====
-- When `completed_worker` of run_host_matrix.py takes a saved trial for completed.
use replaybook.Prelude.{
  String, ◌≡◌, refl, sym, ap, subst, ◌↔◌, ◌⊎◌, inl, inr, Bool, true, false, ◌&&◌, Option, none,
  some, [], ◌∷◌, ◌++◌, arith, Bool-cases, some-injective, if◌then◌else◌,
}
use replaybook.Prelude.Int.{ℤ, pos}
use replaybook.Prelude.Eq.{string_eq}
use replaybook.Prelude.Result.{ok, ok-injective, >>=-eq-ok}
use replaybook.Json.{Value, null, str, obj, Fields}
use replaybook.Json.Floats.{Floats}
use replaybook.Json.Access.{get, eq_int, eq_str, eq_opt_str}
use replaybook.Matrix.Jobs.{Job}
use replaybook.Matrix.Results.{
  Reading, document, WorkerResult, load_result, same_identity, keep_saved, completed_worker,
}
use replaybook.Matrix.Results.Validity.{IsScorable}
use replaybook.Matrix.Results.Loaded.{
  IsLoaded, scorable, refused, load_result-IsLoaded, load_result-accepts,
}

conj4 :
    (a b c d : Bool)
    → ((a && b && c && d) ≡ true) ↔ ((a ≡ true) × (b ≡ true) × (c ≡ true) × (d ≡ true))
conj4 a b c d = ((λ h. ground arith), (λ h. ground arith))

module _ {F : Type 0} where
  -- The text of a job that has a model, and that of one without.
  abbrev pub IsModelOf : Option String → Value F → Type 0
  IsModelOf none v = v ≡ str "oracle"
  IsModelOf (some model) v = v ≡ str model

  -- A missing effort reads as null.
  abbrev pub IsEffortOf : Option String → Value F → Type 0
  IsEffortOf none v = v ≡ null
  IsEffortOf (some effort) v = v ≡ str effort

  -- Where no provider is asked for, any will do.
  abbrev pub IsProviderOf : Option String → Value F → Type 0
  IsProviderOf none v = Unit
  IsProviderOf (some provider) v = v ≡ str provider

  -- The identity of a job with a provider.
  abbrev pub HasIdentity : Job → Option String → Fields F → Type 0
  HasIdentity job provider result =
      (get "scenario" result ≡ str job.scenario)
      × IsModelOf job.model (get "model" result)
      × IsEffortOf job.reasoning_effort (get "reasoning_effort" result)
      × IsProviderOf provider (get "provider" result)

  eq_str_iff : (v : Value F) (s : String) → (eq_str v s ≡ true) ↔ (v ≡ str s)
  eq_str_iff (str t) s =
      ((λ h. ap str (((string_eq).beq_iff t s).0 h)), (λ h. ((string_eq).beq_iff t s).1 cc))
  eq_str_iff _ s = ((λ h. cc), (λ h. cc))

  eq_opt_str_iff : (v : Value F) (s : Option String) → (eq_opt_str v s ≡ true) ↔ IsEffortOf s v
  eq_opt_str_iff v (some s) = eq_str_iff v s
  eq_opt_str_iff null none = ((λ h. refl), (λ h. refl))
  eq_opt_str_iff _ none = ((λ h. cc), (λ h. cc))

  same_model_iff :
      (v : Value F) (model : Option String)
      → (eq_str v (elim model [ none ↦ "oracle" | some m ↦ m ]) ≡ true) ↔ IsModelOf model v
  same_model_iff v none = eq_str_iff v "oracle"
  same_model_iff v (some model) = eq_str_iff v model

  same_provider_iff :
      (v : Value F) (provider : Option String)
      → (elim provider [ none ↦ true | some p ↦ eq_str v p ] ≡ true) ↔ IsProviderOf provider v
  same_provider_iff v none = ((λ h. tt), (λ h. refl))
  same_provider_iff v (some provider) = eq_str_iff v provider

  same_identity_iff :
      (job : Job) (provider : Option String) (result : Fields F)
      → (same_identity job provider result ≡ true) ↔ HasIdentity job provider result
  unfolding same_identity
  same_identity_iff job provider result =
      let scenario = eq_str_iff (get "scenario" result) job.scenario in
      let model = same_model_iff (get "model" result) job.model in
      let effort = eq_opt_str_iff (get "reasoning_effort" result) job.reasoning_effort in
      let given = same_provider_iff (get "provider" result) provider in
      (
        (λ h.
            let (a, b, c, d) = (conj4 _ _ _ _).0 h in
            (scenario.0 a, model.0 b, effort.0 c, given.0 d)),
        (λ (a, b, c, d). (conj4 _ _ _ _).1 (scenario.1 a, model.1 b, effort.1 c, given.1 d)),
      )

module _ {F : Type 0} ⦃fl : Floats F⦄ where
  -- The exit code that a reward stands for: 0 for a reward of 1, and 1 for a reward of 0.
  abbrev pub IsCodeOf : Value F → ℤ → Type 0
  IsCodeOf reward code =
      ((eq_int reward (pos 1) ≡ true) × (code ≡ pos 0))
      ⊎ ((eq_int reward (pos 1) ≡ false) × (eq_int reward (pos 0) ≡ true) × (code ≡ pos 1))

  -- A worker result that stands for the saved trial of a job.
  pub record IsCompleted (job : Job) (provider : Option String) (reading : Reading F)
      (w : WorkerResult F) : Type 0 where
    pub result : Fields F
    pub stands : reading ≡ document (obj result)
    pub good : IsScorable result
    pub identity : HasIdentity job provider result
    pub same_job : w.job ≡ job
    pub code : IsCodeOf (get "reward" result) w.exit_code
    pub kept : w.result ≡ some result
    pub no_error : w.error ≡ none

  code_of :
      (result : Fields F)
      → IsScorable result
      → IsCodeOf
          (get "reward" result)
          (if eq_int (get "reward" result) (pos 1) then pos 0 else pos 1)
  code_of result good = elim (Bool-cases (eq_int (get "reward" result) (pos 1))) [
    | inl one ↦ rw one (inl (refl, refl))
    | inr other ↦ rw other (elim good.reward [
      | inl zero_reward ↦ inr (refl, zero_reward, refl)
      | inr one ↦ absurd (cc (rw other at one))
    ])
  ]

  code_unique :
      (reward : Value F) (code : ℤ)
      → IsCodeOf reward code
      → (if eq_int reward (pos 1) then pos 0 else pos 1) ≡ code
  code_unique reward code (inl (one, e)) = rw one (sym e)
  code_unique reward code (inr (other, zero_reward, e)) = rw other (sym e)

  keep_saved-IsCompleted :
      (job : Job) (provider : Option String) {reading : Reading F}
      {loaded : Option (Fields F) × Option String} {w : WorkerResult F}
      → IsLoaded reading loaded
      → keep_saved job provider loaded ≡ some w
      → IsCompleted job provider reading w
  unfolding keep_saved
  keep_saved-IsCompleted job provider {reading} {w = w} (scorable result e good) h =
      elim (Bool-cases (same_identity job provider result)) [
        | inl same ↦
            subst (IsCompleted job provider reading) (some-injective (rw same at h)) (record {
              result = result;
              stands = e;
              good = good;
              identity = (same_identity_iff job provider result).0 same;
              same_job = refl;
              code = code_of result good;
              kept = refl;
              no_error = refl;
            })
        | inr other ↦ absurd (cc (rw other at h))
      ]
  keep_saved-IsCompleted job provider (refused text) h = absurd cc

  worker_fields :
      {job : Job} {result : Fields F} (w : WorkerResult F)
      → w.job ≡ job
      → w.result ≡ some result
      → w.error ≡ none
      → ◌≡◌ {A = WorkerResult F}
          (record { job = job; exit_code = w.exit_code; result = some result; error = none })
          w
  worker_fields w a b c = rw (← a, ← b, ← c) refl

  completes :
      (job : Job) (provider : Option String) (reading : Reading F) (w : WorkerResult F)
      → IsCompleted job provider reading w
      → completed_worker job provider reading ≡ ok (some w)
  unfolding completed_worker keep_saved
  completes job provider reading w c =
      let loads = load_result-accepts (job.output_dir ++ "result.json" ∷ []) c.result c.good in
      let same = (same_identity_iff job provider c.result).1 c.identity in
      let code = code_unique (get "reward" c.result) w.exit_code c.code in
      rw (c.stands, completed_worker, loads, keep_saved, same, code)
        (ap (λ v. ok (some v)) (worker_fields w c.same_job c.kept c.no_error))

  -- A saved trial counts as completed exactly where its file holds a result that can be scored and
  -- has the scenario, the model, the effort and, where one is asked for, the provider of the job. The
  -- worker result is then that of the job, with the saved result and no error text, and its exit code
  -- is 0 for a reward of 1 and 1 for a reward of 0.
  pub completed_worker_iff :
      (job : Job) (provider : Option String) (reading : Reading F) (w : WorkerResult F)
      → (completed_worker job provider reading ≡ ok (some w)) ↔ IsCompleted job provider reading w
  unfolding completed_worker
  completed_worker_iff job provider reading w = (
    (λ h.
        let (loaded, e, k) =
          >>=-eq-ok (load_result (job.output_dir ++ "result.json" ∷ []) reading) _ h in
        keep_saved-IsCompleted job provider (load_result-IsLoaded _ reading loaded e)
          (ok-injective k)),
    completes job provider reading w,
  )
