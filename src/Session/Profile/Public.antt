-- ===== src/Session/Profile/Public.antt =====
-- What a loaded profile of benchmark_session.py may hold.
use replaybook.Prelude.{
  ◌≡◌, subst, inl, inr, String, true, false, not, Option, none, some, List, [], ◌∷◌, All,
  Bool-cases, Option-cases, if◌then◌else◌,
}
use replaybook.Prelude.Int.{pos}
use replaybook.Prelude.Eq.{elem, string_eq}
use replaybook.Prelude.Text.{FilePath}
use replaybook.Prelude.Result.{
  Result, ok, >>=-eq-ok, raise_if-ok, ok-injective, or_raise, or_raise-ok,
}
use replaybook.Json.{Value, obj, Fields, end, field}
use replaybook.Json.Floats.{Floats}
use replaybook.Json.Access.{get, get_or, as_obj, as_str, eq_int}
use replaybook.Matrix.Results.{Reading}
use replaybook.Session.{read_object}
use replaybook.Session.Profile.{
  public_environment, LifecycleArgs, overrides, Settings, public_items, profile_args,
  environment_items, profile_cohort, load_profile,
}

-- Settings that leave the life cycle to the session and hold public transport settings only.
pub record IsPublic (parse : List String → Option LifecycleArgs) (s : Settings) : Type 0 where
  pub parsed : LifecycleArgs
  pub parses : parse s.args ≡ some parsed
  pub neutral : overrides parsed ≡ false
  pub public : All (λ item. elem item.0 public_environment ≡ true) s.environment

kept_item :
    (key : String) (s : String) (items all : List (String × String))
    → All (λ item. elem item.0 public_environment ≡ true) items
    → (if elem key public_environment then some ((key, s) ∷ items) else none) ≡ some all
    → All (λ item. elem item.0 public_environment ≡ true) all
kept_item key s items all h e = elim (Bool-cases (elem key public_environment)) [
  | inl good ↦
      let same : (key, s) ∷ items ≡ all = cc (rw good at e) in
      subst (All (λ item. elem item.0 public_environment ≡ true)) same (good, h)
  | inr bad ↦ absurd (cc (rw bad at e))
]

module _ {F : Type 0} where
  public_items-All :
      (fields : Fields F) (items : List (String × String))
      → public_items fields ≡ some items
      → All (λ item. elem item.0 public_environment ≡ true) items
  public_items-All end items h =
      let same : [] ≡ items = cc in
      subst (All (λ item. elem item.0 public_environment ≡ true)) same tt
  public_items-All (field key v rest) items h = elim (Option-cases (as_str v)) [
    | inl nothing ↦ absurd (cc (rw (public_items, nothing) at h))
    | inr (s, text) ↦ elim (Option-cases (public_items rest)) [
      | inl nothing ↦ absurd (cc (rw (public_items, text, nothing) at h))
      | inr (more, found) ↦
          kept_item key s more items (public_items-All rest more found)
            (rw (public_items, text, found) at h)
    ]
  ]

  environment_items-All :
      (v : Value F) (items : List (String × String))
      → environment_items v ≡ some items
      → All (λ item. elem item.0 public_environment ≡ true) items
  environment_items-All v items h = elim (Option-cases (as_obj v)) [
    | inl nothing ↦ absurd (cc (rw (environment_items, nothing) at h))
    | inr (fields, found) ↦ public_items-All fields items (rw (environment_items, found) at h)
  ]

module _ {F : Type 0} ⦃fl : Floats F⦄ (parse : List String → Option LifecycleArgs)
    (locate : String → String) (frozen : String → Result (Unit {0})) where
  -- A profile that is loaded has arguments that parse and set nothing of the session's life cycle, and
  -- its environment names public transport settings only.
  pub load_profile-IsPublic :
      (path : FilePath) (reading : Reading F) (name : String) (s : Settings)
      → load_profile parse locate frozen path reading name ≡ ok s
      → IsPublic parse s
  unfolding load_profile
  load_profile-IsPublic path reading name s h =
      let (config, _, h) = >>=-eq-ok (read_object reading) _ h in
      let (_, h) = (raise_if-ok (not (eq_int (get "schema_version" config) (pos 1))) _ _).0 h in
      let (profiles, _, h) = >>=-eq-ok (or_raise (as_obj (get "profiles" config)) _) _ h in
      let (profile, _, h) = >>=-eq-ok (or_raise (as_obj (get name profiles)) _) _ h in
      let (args, _, h) = >>=-eq-ok (or_raise (profile_args (get "args" profile)) _) _ h in
      let (parsed, parses, h) = >>=-eq-ok (or_raise (parse args) _) _ h in
      let (neutral, h) = (raise_if-ok (overrides parsed) _ _).0 h in
      let environment = environment_items (get_or "environment" (obj end) profile) in
      let (items, public_only, h) = >>=-eq-ok (or_raise environment _) _ h in
      let (cohort, _, h) =
        >>=-eq-ok (profile_cohort parse locate frozen (get "cohort" profile)) _ h in
      subst (IsPublic parse) (ok-injective h) (record {
        parsed = parsed;
        parses = or_raise-ok _ _ parsed parses;
        neutral = neutral;
        public =
            environment_items-All (get_or "environment" (obj end) profile) items
              (or_raise-ok _ _ items public_only);
      })
