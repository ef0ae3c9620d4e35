-- ===== src/Matrix/Results/Validity.antt =====
-- The results that `load_result` of run_host_matrix.py takes for valid, described without its tests.
use replaybook.Prelude.{
  String, ◌≡◌, refl, ◌⊎◌, inl, inr, ◌↔◌, Bool, true, ◌&&◌, ◌||◌, some, arith, Bool-cases,
  Option-cases,
}
use replaybook.Prelude.Int.{ℤ, pos, is_positive}
use replaybook.Prelude.Eq.{string_eq}
use replaybook.Prelude.Result.{ok}
use replaybook.Json.{Value, null, str, Fields}
use replaybook.Json.Floats.{Floats}
use replaybook.Json.Access.{get, get_or, as_int, is_str, eq_int}
use replaybook.Matrix.Results.{is_positive_int, in_trial_statuses, valid_values, valid_fields}

conj5 :
    (a b c d e : Bool)
    → (a && b && c && d && e) ≡ true
    → (a ≡ true) × (b ≡ true) × (c ≡ true) × (d ≡ true) × (e ≡ true)
conj5 a b c d e h = ground arith

conj5_intro :
    (a b c d e : Bool)
    → a ≡ true
    → b ≡ true
    → c ≡ true
    → d ≡ true
    → e ≡ true
    → (a && b && c && d && e) ≡ true
conj5_intro a b c d e = ground arith

or_cases : (a b : Bool) → (a || b) ≡ true → (a ≡ true) ⊎ (b ≡ true)
or_cases a b h = ground arith

or_intro : (a b : Bool) → (a ≡ true) ⊎ (b ≡ true) → (a || b) ≡ true
or_intro a b h = ground arith

module _ {F : Type 0} ⦃fl : Floats F⦄ where
  -- A positive integer, where Python counts `True` as 1.
  abbrev pub IsPositive : Value F → Type 0
  IsPositive v = (z : ℤ) × (as_int v ≡ some z) × (is_positive z ≡ true)

  abbrev pub IsText : Value F → Type 0
  IsText v = (s : String) × (v ≡ str s)

  -- A result that can be scored: its scenario and model are texts, its versions are positive
  -- integers, its reward equals 0 or 1 and its status, if it has one, is one of the two.
  pub record IsScorable (result : Fields F) : Type 0 where
    pub harness_version : IsPositive (get "harness_version" result)
    pub scenario : IsText (get "scenario" result)
    pub scenario_version : IsPositive (get "scenario_version" result)
    pub model : IsText (get "model" result)
    pub reward :
        (eq_int (get "reward" result) (pos 0) ≡ true)
        ⊎ (eq_int (get "reward" result) (pos 1) ≡ true)
    pub status :
        (get_or "trial_status" (str "evaluated") result ≡ str "evaluated")
        ⊎ (get_or "trial_status" (str "evaluated") result ≡ str "unavailable")

  is_str_iff : (v : Value F) → (is_str v ≡ true) ↔ IsText v
  is_str_iff (str s) = ((λ h. (s, refl)), (λ h. refl))
  is_str_iff null = ((λ h. cc), (λ h. cc h.1))
  is_str_iff _ = ((λ h. cc), (λ h. cc h.1))

  is_positive_int_iff : (v : Value F) → (is_positive_int v ≡ true) ↔ IsPositive v
  is_positive_int_iff v = ((λ h. positive h), (λ h. ground (arith, h.1, h.2)))
    where
      positive : is_positive_int v ≡ true → IsPositive v
      positive h = elim (Option-cases (as_int v)) [
        | inl e ↦ absurd (ground (arith, h, e))
        | inr (z, e) ↦ (z, e, ground (arith, h, e))
      ]

  valid_values_iff :
      (result : Fields F)
      → (valid_values result ≡ true) ↔ (
          IsPositive (get "harness_version" result)
          × IsText (get "scenario" result)
          × IsPositive (get "scenario_version" result)
          × IsText (get "model" result)
          × ((eq_int (get "reward" result) (pos 0) ≡ true)
              ⊎ (eq_int (get "reward" result) (pos 1) ≡ true)))
  unfolding valid_values
  valid_values_iff result =
      let hv = is_positive_int_iff (get "harness_version" result) in
      let sc = is_str_iff (get "scenario" result) in
      let sv = is_positive_int_iff (get "scenario_version" result) in
      let mo = is_str_iff (get "model" result) in
      (
        (λ h.
            let (a, b, c, d, e) = conj5 _ _ _ _ _ h in
            (hv.0 a, sc.0 b, sv.0 c, mo.0 d, or_cases _ _ e)),
        (λ h. conj5_intro _ _ _ _ _ (hv.1 h.0) (sc.1 h.1) (sv.1 h.2) (mo.1 h.3) (or_intro _ _ h.4)),
      )

  in_trial_statuses-true :
      (v : Value F)
      → in_trial_statuses v ≡ ok true
      → (v ≡ str "evaluated") ⊎ (v ≡ str "unavailable")
  in_trial_statuses-true (str s) h =
      ground (arith, (string_eq).beq_iff "evaluated" s, (string_eq).beq_iff "unavailable" s)
  in_trial_statuses-true null h = cc
  in_trial_statuses-true _ h = cc

  pub valid_fields-true : (result : Fields F) → valid_fields result ≡ ok true → IsScorable result
  unfolding valid_fields
  valid_fields-true result h = elim (Bool-cases (valid_values result)) [
    | inl good ↦
        let (hv, sc, sv, mo, re) = (valid_values_iff result).0 good in
        record {
          harness_version = hv;
          scenario = sc;
          scenario_version = sv;
          model = mo;
          reward = re;
          status =
              in_trial_statuses-true (get_or "trial_status" (str "evaluated") result)
                (rw good at h);
        }
    | inr bad ↦ absurd (ground arith)
  ]

  pub valid_fields-IsScorable :
      (result : Fields F) → IsScorable result → valid_fields result ≡ ok true
  unfolding valid_fields
  valid_fields-IsScorable result h =
      rw
        ((valid_values_iff result).1
          (h.harness_version, h.scenario, h.scenario_version, h.model, h.reward))
        (elim h.status [ inl e ↦ rw e | inr e ↦ rw e ])
