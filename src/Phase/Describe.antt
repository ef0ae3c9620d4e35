-- ===== src/Phase/Describe.antt =====
-- `describe_manifest`, `image_artifacts_config` and `leak_audit_config` of
-- integrations/host/scenario_phase.py. Texts are those of ASCII: letters, white space and case.
pub mod Valid
use Prim.Native.Char.{Char, code}
use replaybook.Prelude.{
  ℕ, zero, suc, ◌+◌, String, Bool, true, false, not, ◌&&◌, ◌||◌, Option, none, some, List, [], ◌∷◌,
  map, length, is_nil, all, any, ltb, nat_beq, if◌then◌else◌,
}
use replaybook.Prelude.Int.{ℤ, is_positive}
use replaybook.Prelude.Eq.{◌==◌, string_eq, elem, unique}
use replaybook.Prelude.Text.{FilePath, ◌<>◌, is_alnum}
use replaybook.Prelude.Result.{
  Result, ok, err, value_error, raise_if, or_raise, ◌>>=◌, ◌>>◌, map_result,
}
use replaybook.Json.{Value, null, int, arr, obj, nil, Fields, items_list}
use replaybook.Json.Access.{get, get_or, as_obj, as_arr}
use replaybook.Matrix.Slug.{lower}
use replaybook.Matrix.Setup.{strip_left, strip_right}
use replaybook.Phase.Values.{one, string_value}
use replaybook.Phase.Steps.{all_texts}

-- The parts of `Path(path)` behind the root.
abbrev pub split_parts : String → List String
split_parts String.[] = "" ∷ []
split_parts (String.◌∷◌ c s) = elim (split_parts s) [
  | [] ↦ []
  | part ∷ parts ↦ if nat_beq (code c) b'/' then "" ∷ part ∷ parts else (String.◌∷◌ c part) ∷ parts
]

abbrev pub path_parts : String → FilePath
path_parts path =
    replaybook.Prelude.filter (λ part. not (part == "" || part == ".")) (split_parts path)

abbrev pub starts_with_slash : String → Bool
starts_with_slash String.[] = false
starts_with_slash (String.◌∷◌ c s) = nat_beq (code c) b'/'

abbrev pub all_chars : (Char → Bool) → String → Bool
all_chars p String.[] = true
all_chars p (String.◌∷◌ c s) = p c && all_chars p s

-- `character.isalnum() or character in "._-/"`
abbrev pub is_path_char : Char → Bool
is_path_char c =
    is_alnum c
    || nat_beq (code c) b'.'
    || nat_beq (code c) b'_'
    || nat_beq (code c) b'-'
    || nat_beq (code c) b'/'

-- The text from the last dot on.
abbrev pub last_dot : String → Option String
last_dot String.[] = none
last_dot (String.◌∷◌ c s) = elim (last_dot s) [
  | some t ↦ some t
  | none ↦ if nat_beq (code c) b'.' then some (String.◌∷◌ c s) else none
]

abbrev pub name_suffix : String → String
name_suffix String.[] = ""
name_suffix (String.◌∷◌ c s) = elim (last_dot s) [ none ↦ "" | some t ↦ if t == "." then "" else t ]

-- `Path(path).suffix`
abbrev pub path_suffix : FilePath → String
path_suffix [] = ""
path_suffix (part ∷ []) = name_suffix part
path_suffix (part ∷ next ∷ parts) = path_suffix (next ∷ parts)

abbrev pub image_suffixes : List String
image_suffixes = ".png" ∷ ".jpg" ∷ ".jpeg" ∷ ".gif" ∷ ".webp" ∷ []

abbrev pub is_unsafe_artifact : String → Bool
is_unsafe_artifact path =
    starts_with_slash path
    || is_nil (path_parts path)
    || elem ".." (path_parts path)
    || not (all_chars is_path_char path)

-- The loop over the artifacts.
unfoldable pub check_artifacts : List String → Result (Unit {0})
unfolding lower
check_artifacts [] = ok tt
check_artifacts (path ∷ paths) = do
  raise_if (is_unsafe_artifact path) "scenario.image_artifacts must contain safe relative paths"
  raise_if (not (elem (lower (path_suffix (path_parts path))) image_suffixes))
      "scenario.image_artifacts supports PNG, JPEG, GIF, and WebP"
  check_artifacts paths

abbrev pub text_length : String → ℕ
text_length String.[] = 0
text_length (String.◌∷◌ c s) = suc (text_length s)

unfoldable pub strip : String → String
unfolding strip_left strip_right
strip s = strip_right (strip_left s)

-- No `\r`, `\n` or `\0`.
abbrev pub is_line_char : Char → Bool
is_line_char c = not (nat_beq (code c) 13 || nat_beq (code c) 10 || nat_beq (code c) 0)

abbrev pub is_forbidden_entry : String → Bool
is_forbidden_entry value = not (ltb (text_length (strip value)) 4) && all_chars is_line_char value

abbrev pub is_scan_path : String → Bool
is_scan_path path =
    starts_with_slash path
    && not (path == "/")
    && not (elem ".." (path_parts path))
    && all_chars is_path_char path

-- The dict of `leak_audit_config`.
pub record LeakAudit : Type 0 where
  pub forbidden_strings : List String
  pub scan_paths : List String

-- The dict of `describe_manifest`; the files are nixos_config, instruction and oracle, the services
-- required_services and restart_services.
pub record Description : Type 0 where
  pub version : ℤ
  pub files : List String
  pub services : List (List String)
  pub image_artifacts : List String
  pub preflight_steps : ℕ
  pub verify_steps : ℕ
  pub leak_audit : LeakAudit

abbrev pub file_fields : List String
file_fields = "nixos_config" ∷ "instruction" ∷ "oracle" ∷ []

abbrev pub service_fields : List String
service_fields = "required_services" ∷ "restart_services" ∷ []

module _ {F : Type 0} where
  -- `isinstance(v, list) and v`
  abbrev pub filled_list : Value F → Option (List (Value F))
  filled_list v = elim (as_arr v) [
    | none ↦ none
    | some items ↦ if is_nil (items_list items) then none else some (items_list items)
  ]

  -- `isinstance(v, list) and all(isinstance(x, str) for x in v)`, with the texts.
  abbrev pub texts_of : Value F → Option (List String)
  texts_of v = elim (as_arr v) [ none ↦ none | some items ↦ all_texts (items_list items) ]

  -- A list of texts that all pass a test.
  abbrev pub texts_with : (String → Bool) → Value F → Option (List String)
  texts_with p v = elim (texts_of v) [
    | none ↦ none
    | some texts ↦ if all p texts then some texts else none
  ]

  -- A list that holds something, of texts that all pass a test.
  abbrev pub some_texts_with : (String → Bool) → Value F → Option (List String)
  some_texts_with p v = elim (texts_with p v) [
    | none ↦ none
    | some texts ↦ if is_nil texts then none else some texts
  ]

  unfoldable pub image_artifacts_config : Fields F → Result (List String)
  unfolding check_artifacts
  image_artifacts_config scenario = do
    artifacts ←
        or_raise
          (texts_with (λ path. not (path == "")) (get_or "image_artifacts" (arr nil) scenario))
          "scenario.image_artifacts must be a string array"
    raise_if (ltb 8 (length artifacts)) "scenario.image_artifacts supports at most 8 files"
    raise_if (not (nat_beq (length artifacts) (length (unique artifacts))))
        "scenario.image_artifacts contains duplicates"
    check_artifacts artifacts
    ok artifacts

  unfoldable pub audit_of : Fields F → Result LeakAudit
  unfolding strip lower
  audit_of config = do
    entries ←
        or_raise (filled_list (get "forbidden_strings" config))
          "guest_leak_audit.forbidden_strings must be a non-empty string array"
    forbidden ←
        or_raise (texts_with is_forbidden_entry (get "forbidden_strings" config))
          "guest_leak_audit.forbidden_strings entries must be at least four characters and contain no control lines"
    raise_if
        (not (
          nat_beq (length (unique (map (λ value. lower (strip value)) forbidden)))
            (length (map strip forbidden))))
        "guest_leak_audit.forbidden_strings contains duplicates"
    scan_paths ←
        or_raise (texts_with is_scan_path (get_or "scan_paths" (arr nil) config))
          "guest_leak_audit.scan_paths must contain safe absolute guest paths"
    raise_if (not (nat_beq (length scan_paths) (length (unique scan_paths))))
        "guest_leak_audit.scan_paths contains duplicates"
    ok (record { forbidden_strings = map strip forbidden; scan_paths = scan_paths })

  unfoldable pub leak_audit_config : Value F → Result LeakAudit
  unfolding audit_of
  leak_audit_config null = ok (record { forbidden_strings = []; scan_paths = [] })
  leak_audit_config (obj config) = audit_of config
  leak_audit_config _ = err (value_error "guest_leak_audit must be a table")

  -- The version of a scenario: an integer above 0 that is no Boolean.
  abbrev pub version_of : Value F → Result ℤ
  version_of (int z) =
      if is_positive z
      then ok z
      else err (value_error "scenario.version must be a positive integer")
  version_of _ = err (value_error "scenario.version must be a positive integer")

  abbrev pub services_of : Fields F → String → Result (List String)
  services_of scenario key =
      or_raise (some_texts_with (λ service. not (service == "")) (get key scenario))
        ("scenario." <> key <> " must be a non-empty string array")

  unfoldable pub step_count : Fields F → String → Result ℕ
  step_count manifest phase =
      or_raise
        (elim (as_obj (get phase manifest)) [
          | none ↦ none
          | some config ↦ elim (as_arr (get "steps" config)) [
            | none ↦ none
            | some steps ↦ some (length (items_list steps))
          ]
        ])
        ("manifest does not define " <> phase <> ".steps")

  unfoldable pub describe_manifest : Fields F → Result Description
  unfolding string_value image_artifacts_config leak_audit_config step_count
  describe_manifest manifest = do
    scenario ← or_raise (as_obj (get "scenario" manifest)) "manifest does not define [scenario]"
    version ← version_of (get "version" scenario)
    files ← map_result (λ key. string_value scenario key none) file_fields
    services ← map_result (services_of scenario) service_fields
    artifacts ← image_artifacts_config scenario
    preflight ← step_count manifest "preflight"
    verify ← step_count manifest "verify"
    audit ← leak_audit_config (get "guest_leak_audit" manifest)
    ok (record {
      version = version;
      files = files;
      services = services;
      image_artifacts = artifacts;
      preflight_steps = preflight;
      verify_steps = verify;
      leak_audit = audit;
    })
