-- ===== src/Manifest/Load.antt =====
-- `load_benchmark_manifest` of integrations/host/benchmark_manifest.py. The path is resolved; the
-- reading of the file, its digest and the resolution of a path inside its directory are inputs.
use Prim.Native.Char.{Char, code}
use replaybook.Prelude.{
  ℕ, ◌+◌, String, Bool, true, false, not, ◌&&◌, ◌||◌, Option, none, some, List, [], ◌∷◌, is_nil,
  leb, nat_beq, if◌then◌else◌,
}
use replaybook.Prelude.Int.{ℤ, pos, is_positive}
use replaybook.Prelude.Eq.{◌==◌, string_eq, list_eq, elem}
use replaybook.Prelude.Text.{FilePath, ◌<>◌, is_alnum, decimal}
use replaybook.Prelude.Result.{Result, ok, err, value_error, type_error, raise_if, ◌>>=◌, ◌>>◌}
use replaybook.Json.{Value, null, bool, int, str, arr, obj, Fields, items_list}
use replaybook.Json.Floats.{Floats}
use replaybook.Json.Access.{get, as_obj, as_arr, eq_int}
use replaybook.Manifest.{BenchmarkManifest, BenchmarkScenario}

-- What stands at the path of a manifest: no file, one that cannot be read or parsed, or a document
-- with the digest of its bytes.
pub data ManifestFile (F : Type 0) : Type 0 where
  missing : ManifestFile F
  broken : String → ManifestFile F
  parsed : Fields F → String → ManifestFile F

abbrev pub is_blank_char : Char → Bool
is_blank_char c =
    nat_beq (code c) 32
    || nat_beq (code c) 9
    || nat_beq (code c) 10
    || nat_beq (code c) 11
    || nat_beq (code c) 12
    || nat_beq (code c) 13
    || (leb 28 (code c) && leb (code c) 31)

-- `not s.strip()`, for white space of ASCII.
abbrev pub is_blank : String → Bool
is_blank String.[] = true
is_blank (String.◌∷◌ c s) = is_blank_char c && is_blank s

-- `[A-Za-z0-9._/-]`
abbrev pub is_identifier_char : Char → Bool
is_identifier_char c =
    is_alnum c
    || nat_beq (code c) b'.'
    || nat_beq (code c) b'_'
    || nat_beq (code c) b'/'
    || nat_beq (code c) b'-'

abbrev pub all_identifier_chars : String → Bool
all_identifier_chars String.[] = true
all_identifier_chars (String.◌∷◌ c s) = is_identifier_char c && all_identifier_chars s

-- `IDENTIFIER_PATTERN.fullmatch(s)`
abbrev pub is_identifier : String → Bool
is_identifier String.[] = false
is_identifier (String.◌∷◌ c s) = is_alnum c && all_identifier_chars s

-- `"/" in s`
abbrev pub has_slash : String → Bool
has_slash String.[] = false
has_slash (String.◌∷◌ c s) = nat_beq (code c) b'/' || has_slash s

-- `str(path)` of an absolute path.
abbrev pub source_text : FilePath → String
source_text [] = ""
source_text (part ∷ parts) = "/" <> part <> source_text parts

abbrev pub parent : FilePath → FilePath
parent [] = []
parent (part ∷ []) = []
parent (part ∷ next ∷ parts) = part ∷ parent (next ∷ parts)

-- `path == base or base in path.parents`
abbrev pub is_within : FilePath → FilePath → Bool
is_within [] path = true
is_within (part ∷ base) [] = false
is_within (part ∷ base) (p ∷ path) = part == p && is_within base path

abbrev pub benchmark_tiers : List String
benchmark_tiers = "core" ∷ "frontier" ∷ "full" ∷ "smoke" ∷ []

abbrev pub required_checks : List String
required_checks =
    "require_immediate_recovery" ∷ "require_service_restart" ∷ "require_host_reboot"
    ∷ "preserve_controller_state" ∷ []

module _ {F : Type 0} where
  unfoldable pub table : Fields F → String → String → Result (Fields F)
  table document key source = elim (as_obj (get key document)) [
    | none ↦ err (value_error (source <> ": missing [" <> key <> "] table"))
    | some value ↦ ok value
  ]

  -- A text that is not blank.
  abbrev pub nonblank : Value F → String → Result String
  nonblank (str s) message = if is_blank s then err (value_error message) else ok s
  nonblank _ message = err (value_error message)

  unfoldable pub string_field : Fields F → String → String → Result String
  string_field value key source =
      nonblank (get key value) (source <> ": " <> key <> " must be a non-empty string")

  abbrev pub optional_nonblank : Value F → String → Result (Option String)
  optional_nonblank null message = ok none
  optional_nonblank v message = nonblank v message >>= λ s. ok (some s)

  unfoldable pub optional_string_field : Fields F → String → String → Result (Option String)
  optional_string_field value key source =
      optional_nonblank (get key value) (source <> ": " <> key <> " must be a non-empty string")

  -- An integer above 0 that is no Boolean.
  abbrev pub positive : Value F → String → Result ℤ
  positive (int z) message = if is_positive z then ok z else err (value_error message)
  positive _ message = err (value_error message)

  unfoldable pub positive_int : Fields F → String → String → Result ℤ
  positive_int value key source =
      positive (get key value) (source <> ": " <> key <> " must be a positive integer")

  -- One round of the loop over the scenarios; `seen` is `scenario_ids`.
  unfoldable pub scenario_entry : String → List String → ℕ → Value F → Result BenchmarkScenario
  unfolding string_field positive_int
  scenario_entry source seen index (obj item) = do
    scenario_id ← string_field item "id" source
    version ← positive_int item "version" source
    raise_if (not (is_identifier scenario_id) || has_slash scenario_id)
        (source <> ": scenario id contains unsafe characters")
    raise_if (elem scenario_id seen) (source <> ": duplicate benchmark scenario: " <> scenario_id)
    ok (record { id = scenario_id; version = version })
  scenario_entry source seen index _ =
      err (value_error (source <> ": scenarios entry " <> decimal index <> " must be a table"))

  unfoldable pub scenario_entries :
      String → List String → ℕ → List (Value F) → Result (List BenchmarkScenario)
  unfolding scenario_entry
  scenario_entries source seen index [] = ok []
  scenario_entries source seen index (item ∷ items) = do
    scenario ← scenario_entry source seen index item
    scenarios ← scenario_entries source (scenario.id ∷ seen) (index + 1) items
    ok (scenario ∷ scenarios)

  -- `isinstance(v, list) and v`
  abbrev pub nonempty_list : Value F → String → Result (List (Value F))
  nonempty_list v message = elim (as_arr v) [
    | none ↦ err (value_error message)
    | some vs ↦ if is_nil (items_list vs) then err (value_error message) else ok (items_list vs)
  ]

  abbrev pub is_true : Value F → Bool
  is_true (bool b) = b
  is_true _ = false

  -- The loop over the verification keys.
  abbrev pub require_true : Fields F → String → List String → Result (Unit {0})
  require_true verification source [] = ok tt
  require_true verification source (key ∷ keys) =
      raise_if (not (is_true (get key verification)))
        (source <> ": verification." <> key <> " must be true")
      >> require_true verification source keys

  -- A list or a dict cannot be looked up in the set of tiers.
  abbrev pub checked_tier : Value F → String → Result (Option String)
  checked_tier null message = ok none
  checked_tier (str s) message =
      if elem s benchmark_tiers then ok (some s) else err (value_error message)
  checked_tier (arr vs) message = err type_error
  checked_tier (obj fs) message = err type_error
  checked_tier _ message = err (value_error message)

module _ {F : Type 0} ⦃fl : Floats F⦄ (resolve : FilePath → String → FilePath) where
  -- The part of the loader behind the parser.
  unfoldable pub manifest_of : FilePath → Fields F → String → Result BenchmarkManifest
  unfolding table string_field optional_string_field positive_int scenario_entries
  manifest_of path document digest =
      let source = source_text path in
      do
        raise_if (not (eq_int (get "schema_version" document) (pos 1)))
            (source <> ": unsupported benchmark schema version")
        benchmark ← table document "benchmark" source
        pack ← table document "pack" source
        verification ← table document "verification" source
        benchmark_id ← string_field benchmark "id" source
        pack_id ← string_field pack "id" source
        raise_if (not (is_identifier benchmark_id))
            (source <> ": benchmark.id contains unsafe characters")
        raise_if (not (is_identifier pack_id)) (source <> ": pack.id contains unsafe characters")
        pack_path_value ← string_field pack "path" source
        raise_if (not (is_within (parent path) (resolve (parent path) pack_path_value)))
            (source <> ": pack.path must stay within the benchmark directory")
        items ←
            nonempty_list (get "scenarios" document)
              (source <> ": [[scenarios]] must contain at least one scenario")
        scenarios ← scenario_entries source [] 1 items
        require_true verification source required_checks
        status ←
            optional_nonblank (get "status" benchmark)
              (source <> ": benchmark.status must be a non-empty string")
        tier ←
            checked_tier (get "tier" benchmark)
              (source <> ": benchmark.tier must be one of core, frontier, full, smoke")
        version ← string_field benchmark "version" source
        pack_version ← optional_string_field pack "version" source
        attempts ← positive_int benchmark "attempts" source
        timeout ← positive_int benchmark "agent_timeout_seconds" source
        harness ← positive_int benchmark "required_host_harness_version" source
        ok (record {
          path = path;
          id = benchmark_id;
          version = version;
          status = status;
          tier = tier;
          pack_path = resolve (parent path) pack_path_value;
          pack_id = pack_id;
          pack_version = pack_version;
          scenarios = scenarios;
          attempts = attempts;
          agent_timeout_seconds = timeout;
          required_host_harness_version = harness;
          sha256 = digest;
        })

  unfoldable pub load_benchmark_manifest : FilePath → ManifestFile F → Result BenchmarkManifest
  unfolding manifest_of
  load_benchmark_manifest path missing =
      err (value_error ("benchmark manifest does not exist: " <> source_text path))
  load_benchmark_manifest path (broken text) =
      err (value_error ("could not read benchmark manifest " <> source_text path <> ": " <> text))
  load_benchmark_manifest path (parsed document digest) = manifest_of path document digest
