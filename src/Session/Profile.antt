-- ===== src/Session/Profile.antt =====
-- `load_profile`, `worker_identity` and `resolve_target` of integrations/host/benchmark_session.py. The
-- matrix arguments are parsed by a parameter, and the disk answers which directories exist.
pub mod Public
use Prim.Native.Char.{Char, code}
use replaybook.Prelude.{
  ℕ, suc, zero, String, Bool, true, false, not, ◌&&◌, ◌||◌, Option, none, some, List, [], ◌∷◌, ◌++◌,
  is_nil, nat_beq, ltb, get_elem?, if◌then◌else◌,
}
use replaybook.Prelude.Int.{ℤ, pos}
use replaybook.Prelude.Eq.{◌==◌, string_eq, elem}
use replaybook.Prelude.Text.{FilePath, ◌<>◌}
use replaybook.Prelude.Result.{Result, ok, err, value_error, raise_if, or_raise, ◌>>=◌, ◌>>◌}
use replaybook.Json.{Value, null, str, arr, obj, Items, Fields, end, field, items_list}
use replaybook.Json.Floats.{Floats}
use replaybook.Json.Access.{get, get_or, as_obj, as_arr, as_str, is_null, eq_int}
use replaybook.Phase.Steps.{all_texts}
use replaybook.Phase.Values.{repr}
use replaybook.Manifest.Load.{is_blank_char}
use replaybook.Matrix.Results.{Reading, path_text}
use replaybook.Session.{read_object}

abbrev pub public_environment : List String
public_environment =
    "REPLAYBOOK_CLAUX_AUTH_BINARY" ∷ "REPLAYBOOK_CLAUX_PROVIDER_ROUTES"
    ∷ "REPLAYBOOK_OPENAI_UPSTREAM" ∷ "REPLAYBOOK_OPENAI_PROXY_PATH" ∷ []

-- The truth of the parsed matrix arguments that belong to the life cycle of a session.
pub record LifecycleArgs : Type 0 where
  pub resume : Bool
  pub output_dir : Bool
  pub check : Bool
  pub list_scenarios : Bool
  pub refresh_controller : Bool
  pub retry_unavailable : Bool

abbrev pub overrides : LifecycleArgs → Bool
overrides a =
    a.resume || a.output_dir || a.check || a.list_scenarios || a.refresh_controller
    || a.retry_unavailable

-- The dict of `load_profile`; the cohort is the text of its directory.
pub record Settings : Type 0 where
  pub args : List String
  pub environment : List (String × String)
  pub cohort : Option String

module _ {F : Type 0} where
  -- The items of an environment, where each is a text under a public name.
  abbrev pub public_items : Fields F → Option (List (String × String))
  public_items end = some []
  public_items (field key v rest) = elim (as_str v) [
    | none ↦ none
    | some s ↦ elim (public_items rest) [
      | none ↦ none
      | some items ↦ if elem key public_environment then some ((key, s) ∷ items) else none
    ]
  ]

  -- A list of texts that is not empty.
  abbrev pub profile_args : Value F → Option (List String)
  profile_args v = elim (as_arr v) [
    | none ↦ none
    | some items ↦ if is_nil (items_list items) then none else all_texts (items_list items)
  ]

  abbrev pub environment_items : Value F → Option (List (String × String))
  environment_items v = elim (as_obj v) [ none ↦ none | some fields ↦ public_items fields ]

module _ {F : Type 0} ⦃fl : Floats F⦄ (parse : List String → Option LifecycleArgs)
    (locate : String → String) (frozen : String → Result (Unit {0})) where
  -- The cohort of a profile: `locate` resolves its path, `frozen` is the test of `cohort_execution`.
  abbrev pub profile_cohort : Value F → Result (Option String)
  profile_cohort null = ok none
  profile_cohort (str s) = frozen (locate s) >>= λ _. ok (some (locate s))
  profile_cohort _ = err (value_error "profile cohort must be a directory path")

  unfoldable pub load_profile : FilePath → Reading F → String → Result Settings
  unfolding read_object
  load_profile path reading name = do
    config ← read_object reading
    raise_if (not (eq_int (get "schema_version" config) (pos 1)))
        "unsupported session configuration schema"
    profiles ←
        or_raise (as_obj (get "profiles" config)) "session configuration profiles must be an object"
    profile ←
        or_raise (as_obj (get name profiles))
          ("profile " <> repr name <> " is not defined in " <> path_text path)
    args ←
        or_raise (profile_args (get "args" profile))
          "profile args must be a non-empty array of matrix arguments"
    parsed ← or_raise (parse args) "profile contains invalid matrix arguments"
    raise_if (overrides parsed) "session profiles cannot override lifecycle or output arguments"
    environment ←
        or_raise (environment_items (get_or "environment" (obj end) profile))
          "profile environment accepts only public transport settings; keep credentials in the shell or auth store"
    cohort ← profile_cohort (get "cohort" profile)
    ok (record { args = args; environment = environment; cohort = cohort })

-- `text.split()`: the words between white space.
abbrev pub add_char : Char → List String → List String
add_char c [] = String.◌∷◌ c String.[] ∷ []
add_char c (w ∷ ws) = String.◌∷◌ c w ∷ ws

-- The words, with an empty word in front where the text starts with white space.
abbrev pub raw_words : String → List String
raw_words String.[] = "" ∷ []
raw_words (String.◌∷◌ c s) =
    let rest = raw_words s in if is_blank_char c then "" ∷ rest else add_char c rest

abbrev pub words : String → List String
words s = replaybook.Prelude.filter (λ w. not (w == "")) (raw_words s)

-- The text behind the last `)`.
abbrev pub behind_paren : String → Option String
behind_paren String.[] = none
behind_paren (String.◌∷◌ c s) = elim (behind_paren s) [
  | some t ↦ some t
  | none ↦ if nat_beq (code c) b')' then some s else none
]

-- The start time of a process from its /proc/<pid>/stat, where that can be read; a zombie has none.
unfoldable pub worker_identity : Option String → Option String
worker_identity none = none
worker_identity (some text) = elim (behind_paren text) [
  | none ↦ none
  | some rest ↦ elim (get_elem? (words rest) 0) [
    | none ↦ none
    | some state ↦ if state == "Z" then none else get_elem? (words rest) 19
  ]
]

-- The first candidate that is a directory.
abbrev pub first_directory : (FilePath → Bool) → List FilePath → Option FilePath
first_directory is_dir [] = none
first_directory is_dir (path ∷ paths) =
    let rest = first_directory is_dir paths in if is_dir path then some path else rest

-- `max(choices, key=mtime)`: the first of the latest; the times are whole here.
abbrev pub latest : FilePath × ℕ → List (FilePath × ℕ) → FilePath
latest best [] = best.0
latest best (choice ∷ choices) =
    let kept = latest best choices in
    let replaced = latest choice choices in if ltb best.1 choice.1 then replaced else kept

-- `candidates` are the paths that a value may name, `choices` the directories of the sessions and the
-- matrices with their times.
unfoldable pub resolve_target :
    (FilePath → Bool) → String → List FilePath → List (FilePath × ℕ) → Result FilePath
resolve_target is_dir value candidates choices =
    if value == "latest"
    then elim choices [
      | [] ↦ err (value_error "no benchmark sessions or matrices")
      | choice ∷ more ↦ ok (latest choice more)
    ]
    else elim (first_directory is_dir candidates) [
      | none ↦ err (value_error ("session or matrix not found: " <> value))
      | some path ↦ ok path
    ]
