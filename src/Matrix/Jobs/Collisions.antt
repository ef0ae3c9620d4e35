-- ===== src/Matrix/Jobs/Collisions.antt =====
-- When `build_jobs` of run_host_matrix.py refuses a plan: two models whose slugs are the same text.
use replaybook.Prelude.{
  ℕ, suc, ◌≡◌, refl, ap, inl, inr, String, true, Option, none, List, [], ◌∷◌, ◌++◌, arith,
  Bool-cases, append_assoc,
}
use replaybook.Prelude.Int.{pos}
use replaybook.Prelude.Text.{◌<>◌, decimal}
use replaybook.Prelude.Eq.{
  ◌==◌, Eq, Distinct, elem, elem-append, Distinct-append, eq_self, string_eq, option_eq,
  length-unique_iff,
}
use replaybook.Prelude.Result.{err, value_error}
use replaybook.Matrix.Jobs.{
  JobSpec, all_jobs, build_jobs, efforts_or_none, run_ids, has_duplicates, model_slug, effort_slug,
}
use replaybook.Matrix.Jobs.Ids.{
  ids_attempts, ids_efforts, ids_models, ids_scenarios, run_ids-all_jobs,
}

build_jobs-repeats :
    (spec : JobSpec)
    → ¬ Distinct (run_ids (all_jobs spec))
    → build_jobs spec ≡ err (value_error "model names produce colliding run IDs")
unfolding build_jobs
build_jobs-repeats spec repeats = elim (Bool-cases (has_duplicates (run_ids (all_jobs spec)))) [
  | inl dup ↦ rw dup
  | inr fine ↦ absurd (repeats ((length-unique_iff (run_ids (all_jobs spec))).0 (ground arith)))
]

-- the first run id of a model with a given slug
first_id : String → String → List (Option String) → String
first_id scenario slug [] = ""
first_id scenario slug (effort ∷ efforts) =
    scenario <> "-" <> slug <> effort_slug effort <> "-" <> decimal 1

elem-ids_efforts :
    (scenario slug : String) (n : ℕ) (e : Option String) (es : List (Option String))
    → elem (first_id scenario slug (e ∷ es)) (ids_efforts scenario slug (suc n) (e ∷ es)) ≡ true
unfolding ids_efforts ids_attempts first_id
elem-ids_efforts scenario slug n e es = ground (arith, eq_self (first_id scenario slug (e ∷ es)))

elem-ids_models :
    (scenario : String) (n : ℕ) (e : Option String) (es : List (Option String)) (m : Option String)
    (models : List (Option String))
    → elem m models ≡ true
    → elem (first_id scenario (model_slug m) (e ∷ es)) (ids_models scenario (suc n) (e ∷ es) models)
      ≡ true
unfolding ids_models
elem-ids_models scenario n e es m [] h = cc
elem-ids_models scenario n e es m (k ∷ models) h =
    let r = first_id scenario (model_slug m) (e ∷ es) in
    elim (Bool-cases (k == m)) [
      | inl same ↦
          let k≡m = ((option_eq {A = String}).beq_iff k m).0 same in
          ground (
            arith,
            elem-append r (ids_efforts scenario (model_slug k) (suc n) (e ∷ es))
                (ids_models scenario (suc n) (e ∷ es) models),
            elem-ids_efforts scenario (model_slug m) n e es,
            ap model_slug k≡m,
          )
      | inr other ↦ ground (
        arith,
        elem-append r (ids_efforts scenario (model_slug k) (suc n) (e ∷ es))
            (ids_models scenario (suc n) (e ∷ es) models),
        elem-ids_models scenario n e es m models,
      )
    ]

ids_models-append :
    (scenario : String) (n : ℕ) (es xs ys : List (Option String))
    → ids_models scenario n es (xs ++ ys)
      ≡ ids_models scenario n es xs ++ ids_models scenario n es ys
unfolding ids_models
ids_models-append scenario n es [] ys = refl
ids_models-append scenario n es (x ∷ xs) ys =
    simp (ids_models-append scenario n es xs, append_assoc)

Distinct-left {ℓ} : {A : Type ℓ} ⦃e : Eq A⦄ (xs ys : List A) → Distinct (xs ++ ys) → Distinct xs
Distinct-left [] ys d = tt
Distinct-left (x ∷ xs) ys d = (ground (arith, elem-append x xs ys, d.0), Distinct-left xs ys d.1)

ids_models-repeats :
    (scenario : String) (n : ℕ) (e m m' : Option String) (es xs ys : List (Option String))
    → elem m xs ≡ true
    → elem m' ys ≡ true
    → model_slug m ≡ model_slug m'
    → ¬ Distinct (ids_models scenario (suc n) (e ∷ es) (xs ++ ys))
ids_models-repeats scenario n e m m' es xs ys hx hy same d =
    let r = first_id scenario (model_slug m) (e ∷ es) in
    let shared =
      Distinct-append r (ids_models scenario (suc n) (e ∷ es) xs)
        (ids_models scenario (suc n) (e ∷ es) ys)
        (rw (ids_models-append scenario (suc n) (e ∷ es) xs ys) at d)
        (elem-ids_models scenario n e es m xs hx) in
    cc (
      shared,
      elem-ids_models scenario n e es m' ys hy,
      ap (λ slug. first_id scenario slug (e ∷ es)) same,
    )

ids_scenarios-repeats :
    (s : String) (ss : List String) (n : ℕ) (m m' : Option String) (es xs ys : List (Option String))
    → elem m xs ≡ true
    → elem m' ys ≡ true
    → model_slug m ≡ model_slug m'
    → ¬ Distinct (ids_scenarios (suc n) (efforts_or_none es) (xs ++ ys) (s ∷ ss))
unfolding ids_scenarios
ids_scenarios-repeats s ss n m m' [] xs ys hx hy same d =
    ids_models-repeats s n none m m' [] xs ys hx hy same (Distinct-left _ _ d)
ids_scenarios-repeats s ss n m m' (e ∷ es) xs ys hx hy same d =
    ids_models-repeats s n e m m' es xs ys hx hy same (Distinct-left _ _ d)

-- Two models at different places of the list whose slugs are the same text (the oracle has the slug
-- `oracle`) make `build_jobs` refuse the plan, if there is a scenario and at least one attempt.
pub build_jobs-collision :
    (spec : JobSpec) (s : String) (ss : List String) (n : ℕ) (xs ys : List (Option String))
    (m m' : Option String)
    → spec.scenarios ≡ s ∷ ss
    → spec.attempts ≡ pos (suc n)
    → spec.models ≡ xs ++ ys
    → elem m xs ≡ true
    → elem m' ys ≡ true
    → model_slug m ≡ model_slug m'
    → build_jobs spec ≡ err (value_error "model names produce colliding run IDs")
build_jobs-collision spec s ss n xs ys m m' hs hn hm hx hy same = build_jobs-repeats spec λ d.
    ids_scenarios-repeats s ss n m m' spec.reasoning_efforts xs ys hx hy same
      (rw (run_ids-all_jobs spec, hs, hn, hm) at d)
