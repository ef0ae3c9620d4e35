-- ===== src/Matrix/Results/Loaded.antt =====
-- What `load_result` of run_host_matrix.py lets through.
use replaybook.Prelude.{
  String, ◌≡◌, refl, inl, inr, Bool, true, false, Option, none, some, if◌then◌else◌, all, arith,
  Bool-cases,
}
use mathlib.Core.Path.{subst}
use replaybook.Prelude.Text.{FilePath, ◌<>◌}
use replaybook.Prelude.Int.{ℤ}
use replaybook.Prelude.Eq.{string_eq}
use replaybook.Prelude.Result.{Result, ok, ok-injective, >>=-eq-ok}
use replaybook.Json.{Value, null, bool, int, float, str, arr, obj, Fields}
use replaybook.Json.Floats.{Floats}
use replaybook.Json.Access.{get, has_key, is_null, eq_int}
use replaybook.Matrix.Results.{
  Reading, absent, unreadable, document, required_fields, valid_fields, judge_result, path_text,
  load_result,
}
use replaybook.Matrix.Results.Validity.{
  IsScorable, IsPositive, valid_fields-true, valid_fields-IsScorable,
}

module _ {F : Type 0} ⦃fl : Floats F⦄ where
  -- What a loaded pair says: a scorable result and no error, or an error text and no result.
  pub data IsLoaded (reading : Reading F) : Option (Fields F) × Option String → Type 0 where
    scorable :
        (result : Fields F)
        → reading ≡ document (obj result)
        → IsScorable result
        → IsLoaded reading (some result, none)
    refused : (text : String) → IsLoaded reading (none, some text)

  refused_at :
      {reading : Reading F} {loaded : Option (Fields F) × Option String} {text : String}
      → ◌≡◌ {A = Result (Option (Fields F) × Option String)} (ok (none, some text)) (ok loaded)
      → IsLoaded reading loaded
  refused_at {reading} {loaded} {text} h = subst (IsLoaded reading) (ok-injective h) (refused text)

  judge_result-IsLoaded :
      (path : FilePath) (result : Fields F) (loaded : Option (Fields F) × Option String)
      → judge_result path result ≡ ok loaded
      → IsLoaded (document (obj result)) loaded
  unfolding judge_result
  judge_result-IsLoaded path result loaded h =
      elim (Bool-cases (all (λ k. has_key k result) required_fields)) [
        | inl keys ↦
            let (valid, e, k) = >>=-eq-ok (valid_fields result) _ (rw keys at h) in
            let good : valid ≡ true → IsScorable result = λ v. valid_fields-true result (cc) in
            judged valid good k
        | inr keys ↦ refused_at (rw keys at h)
      ]
    where
      judged :
          (valid : Bool)
          → (valid ≡ true → IsScorable result)
          → ok (
              if valid
              then (some result, none)
              else (none, some ("result has invalid required fields: " <> path_text path)))
            ≡ ok loaded
          → IsLoaded (document (obj result)) loaded
      judged true good k =
          subst (IsLoaded (document (obj result))) (ok-injective k)
            (scorable result refl (good refl))
      judged false good k = refused_at k

  -- `load_result` hands on a result only where the file holds it and it can be scored, with no error
  -- text; every other outcome is an error text.
  pub load_result-IsLoaded :
      (path : FilePath) (reading : Reading F) (loaded : Option (Fields F) × Option String)
      → load_result path reading ≡ ok loaded
      → IsLoaded reading loaded
  unfolding load_result
  load_result-IsLoaded path absent loaded h = refused_at h
  load_result-IsLoaded path (unreadable text) loaded h = refused_at h
  load_result-IsLoaded path (document (obj result)) loaded h =
      judge_result-IsLoaded path result loaded h
  load_result-IsLoaded path (document null) loaded h = refused_at h
  load_result-IsLoaded path (document (bool b)) loaded h = refused_at h
  load_result-IsLoaded path (document (int z)) loaded h = refused_at h
  load_result-IsLoaded path (document (float x)) loaded h = refused_at h
  load_result-IsLoaded path (document (str t)) loaded h = refused_at h
  load_result-IsLoaded path (document (arr vs)) loaded h = refused_at h

  has_key-get : (k : String) (fs : Fields F) → is_null (get k fs) ≡ false → has_key k fs ≡ true
  unfolding get has_key
  has_key-get k fs h = ground arith

  is_null-IsPositive : (v : Value F) → IsPositive v → is_null v ≡ false
  is_null-IsPositive null p = cc p.1
  is_null-IsPositive _ p = refl

  is_null-eq_int : (v : Value F) (z : ℤ) → eq_int v z ≡ true → is_null v ≡ false
  is_null-eq_int null z p = cc
  is_null-eq_int _ z p = refl

  IsScorable-has_all :
      (result : Fields F) → IsScorable result → all (λ k. has_key k result) required_fields ≡ true
  IsScorable-has_all result h = ground (
    arith,
    has_key-get "harness_version" result (is_null-IsPositive _ h.harness_version),
    has_key-get "scenario" result (rw (h.scenario.1)),
    has_key-get "scenario_version" result (is_null-IsPositive _ h.scenario_version),
    has_key-get "model" result (rw (h.model.1)),
    has_key-get "reward" result
        (elim h.reward [ inl e ↦ is_null-eq_int _ _ e | inr e ↦ is_null-eq_int _ _ e ]),
  )

  -- `load_result` accepts every document that can be scored, as it is.
  pub load_result-accepts :
      (path : FilePath) (result : Fields F)
      → IsScorable result
      → load_result path (document (obj result)) ≡ ok (some result, none)
  unfolding load_result
  load_result-accepts path result h =
      rw (IsScorable-has_all result h, valid_fields-IsScorable result h) refl
