-- ===== src/Manifest/Discover.antt =====
-- `scenario_version`, `discover` and the choice of `main` in integrations/host/scenario_pack.py. The
-- directories are given with the files that are read in them.
pub mod Different
use Prim.Native.Char.{Char, code}
use replaybook.Prelude.{
  ℕ, ◌+◌, ◌*◌, ◌-◌, String, Bool, true, false, not, ◌&&◌, ◌||◌, Option, none, some, List, [], ◌∷◌,
  ◌++◌, map, nat_beq, if◌then◌else◌,
}
use replaybook.Prelude.Int.{ℤ, pos, is_positive}
use replaybook.Prelude.Eq.{◌==◌, string_eq, elem}
use replaybook.Prelude.Dict.{Dict, lookup}
use replaybook.Prelude.Text.{FilePath, ◌<>◌, is_digit}
use replaybook.Prelude.Result.{Result, ok, err, value_error, raise_if, or_raise, ◌>>=◌, ◌>>◌}
use replaybook.Json.{Value, int, Fields}
use replaybook.Json.Access.{get, as_obj}
use replaybook.Matrix.Args.{is_scenario_id}
use replaybook.Manifest.Load.{ManifestFile, missing, broken, parsed, source_text}
use replaybook.Manifest.Environment.{ScenarioPack, Scenario}
use replaybook.Manifest.Pack.{load_pack}

-- A directory below a pack: its name, its scenario.toml and the text of its scenario.conf.
pub record ScenarioDir (F : Type 0) : Type 0 where
  pub name : String
  pub path : FilePath
  pub typed : ManifestFile F
  pub legacy : Option String

-- A pack path, resolved; the children are the directories in it, sorted.
pub record PackDir (F : Type 0) : Type 0 where
  pub path : FilePath
  pub manifest : FilePath
  pub is_dir : Bool
  pub file : ManifestFile F
  pub children : List (ScenarioDir F)

-- What `discover` returns.
pub record Discovered : Type 0 where
  pub packs : List ScenarioPack
  pub scenarios : Dict String Scenario

-- The text behind a prefix.
abbrev pub strip_prefix : String → String → Option String
strip_prefix String.[] s = some s
strip_prefix (String.◌∷◌ c p) String.[] = none
strip_prefix (String.◌∷◌ c p) (String.◌∷◌ d s) =
    let rest = strip_prefix p s in if nat_beq (code c) (code d) then rest else none

-- `"` or `'`
abbrev pub is_quote : Char → Bool
is_quote c = nat_beq (code c) 34 || nat_beq (code c) 39

abbrev pub drop_quote : String → String
drop_quote String.[] = ""
drop_quote (String.◌∷◌ c s) = if is_quote c then s else String.◌∷◌ c s

-- `[0-9]*["']?$`, with the digits read so far.
abbrev pub digits_end : ℕ → String → Option ℕ
digits_end n String.[] = some n
digits_end n (String.◌∷◌ c s) =
    let more = digits_end (n * 10 + (code c - b'0')) s in
    if is_digit c then more else if is_quote c && s == "" then some n else none

-- `[1-9][0-9]*["']?$`
abbrev pub version_digits : String → Option ℕ
version_digits String.[] = none
version_digits (String.◌∷◌ c s) =
    if is_digit c && not (nat_beq (code c) b'0') then digits_end (code c - b'0') s else none

-- A line that SCENARIO_VERSION_PATTERN matches, with its number.
abbrev pub line_version : String → Option ℕ
line_version line = elim (strip_prefix "SCENARIO_VERSION=" line) [
  | none ↦ none
  | some rest ↦ version_digits (drop_quote rest)
]

abbrev pub lines : String → List String
lines String.[] = "" ∷ []
lines (String.◌∷◌ c s) = elim (lines s) [
  | [] ↦ []
  | line ∷ more ↦ if nat_beq (code c) 10 then "" ∷ line ∷ more else (String.◌∷◌ c line) ∷ more
]

-- The first line that matches.
abbrev pub first_version : List String → Option ℕ
first_version [] = none
first_version (line ∷ more) = elim (line_version line) [
  | none ↦ first_version more
  | some n ↦ some n
]

abbrev pub legacy_version : FilePath → Option String → Result (Option ℤ)
legacy_version path none = ok none
legacy_version path (some text) = elim (first_version (lines text)) [
  | none ↦ err (
      value_error
        (source_text path <> "/scenario.conf: SCENARIO_VERSION must be a positive integer"))
  | some n ↦ ok (some (pos n))
]

module _ {F : Type 0} where
  -- An integer above 0 that is no Boolean.
  abbrev pub typed_version : Value F → String → Result ℤ
  typed_version (int z) message = if is_positive z then ok z else err (value_error message)
  typed_version _ message = err (value_error message)

  -- `table.get("version") if isinstance(table, dict) else None`
  abbrev pub version_in : Value F → Value F
  version_in table = elim (as_obj table) [
    | none ↦ replaybook.Json.null
    | some fields ↦ get "version" fields
  ]

  unfoldable pub scenario_version : ScenarioDir F → Result (Option ℤ)
  scenario_version dir = elim dir.typed [
    | missing ↦ legacy_version dir.path dir.legacy
    | broken text ↦ err (
        value_error (
          "could not read scenario manifest "
          <> source_text dir.path
          <> "/scenario.toml: "
          <> text))
    | parsed document digest ↦
        typed_version (version_in (get "scenario" document))
          (source_text dir.path <> "/scenario.toml: scenario.version must be a positive integer")
        >>= λ version. ok (some version)
  ]

  -- A scenario of a pack, added behind the others.
  unfoldable pub add_scenario :
      ScenarioPack → ScenarioDir F → ℤ → Dict String Scenario → Result (Dict String Scenario)
  unfolding lookup
  add_scenario pack dir version scenarios =
      raise_if (not (is_scenario_id dir.name))
        ("scenario ID contains unsafe characters: " <> dir.name)
      >> elim (lookup dir.name scenarios) [
        | some previous ↦ err (
            value_error (
              "duplicate host-native scenario " <> dir.name <> ": " <> previous.pack.id <> " and "
              <> pack.id))
        | none ↦ ok (
            scenarios
            ++ (dir.name, record { id = dir.name; version = version; path = dir.path; pack = pack })
              ∷ [])
      ]

  -- The inner loop.
  unfoldable pub scan_pack :
      ScenarioPack → List (ScenarioDir F) → Dict String Scenario → Result (Dict String Scenario)
  unfolding scenario_version add_scenario
  scan_pack pack [] scenarios = ok scenarios
  scan_pack pack (dir ∷ dirs) scenarios = scenario_version dir >>= λ found. elim found [
    | none ↦ scan_pack pack dirs scenarios
    | some version ↦ add_scenario pack dir version scenarios >>= λ more. scan_pack pack dirs more
  ]

  unfoldable pub discover_from : List (PackDir F) → Discovered → Result Discovered
  unfolding load_pack scan_pack
  discover_from [] found = ok found
  discover_from (dir ∷ dirs) found = do
    pack ← load_pack dir.path dir.manifest dir.is_dir dir.file
    raise_if (elem pack.id (map (λ p. p.id) found.packs))
        ("duplicate scenario pack ID: " <> pack.id)
    scenarios ← scan_pack pack dir.children found.scenarios
    discover_from dirs (record { packs = found.packs ++ pack ∷ []; scenarios = scenarios })

  unfoldable pub discover : List (PackDir F) → Result Discovered
  unfolding discover_from
  discover dirs = discover_from dirs (record { packs = []; scenarios = [] })
