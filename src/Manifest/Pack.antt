-- ===== src/Manifest/Pack.antt =====
-- `load_pack` of integrations/host/scenario_pack.py behind the TOML parser, and
-- `BenchmarkManifest.metadata` of integrations/host/benchmark_manifest.py.
use replaybook.Prelude.{String, Bool, true, false, not, ◌||◌, Option, none, some, nat_beq}
use Prim.Native.Char.{code}
use replaybook.Prelude.Int.{pos}
use replaybook.Prelude.Text.{FilePath, ◌<>◌}
use replaybook.Prelude.Result.{Result, ok, err, value_error, raise_if, ◌>>=◌, ◌>>◌}
use replaybook.Json.{Value, null, int, str, Fields, end, field}
use replaybook.Json.Access.{get, as_obj}
use replaybook.Manifest.{BenchmarkManifest}
use replaybook.Manifest.Load.{
  ManifestFile, missing, broken, parsed, nonblank, is_identifier, source_text,
}
use replaybook.Manifest.Environment.{ScenarioPack}

-- The states of a part: nothing yet, one dot, two dots, anything else.
pub data Part : Type 0 where
  nothing one_dot two_dots other : Part

abbrev pub is_bad_part : Part → Bool
is_bad_part other = false
is_bad_part _ = true

abbrev pub next_part : Part → Bool → Part
next_part nothing true = one_dot
next_part one_dot true = two_dots
next_part _ _ = other

-- `any(part in {"", ".", ".."} for part in pack_id.split("/"))`
unfoldable pub has_bad_part : Part → String → Bool
has_bad_part part String.[] = is_bad_part part
has_bad_part part (String.◌∷◌ c s) = elim (nat_beq (code c) b'/') [
  | true ↦ is_bad_part part || has_bad_part nothing s
  | false ↦ has_bad_part (next_part part (nat_beq (code c) b'.')) s
]

module _ {F : Type 0} where
  abbrev pub pack_field : Fields F → String → String → Result String
  pack_field table key source =
      nonblank (get key table) (source <> ": pack." <> key <> " must be a non-empty string")

  -- The directory is resolved; `is_dir` says that it is there, and `manifest` is the path of its
  -- replaybook-pack.toml.
  unfoldable pub load_pack : FilePath → FilePath → Bool → ManifestFile F → Result ScenarioPack
  unfolding has_bad_part
  load_pack resolved manifest false file =
      err (value_error ("scenario pack directory does not exist: " <> source_text resolved))
  load_pack resolved manifest true missing =
      err (value_error ("scenario pack is missing replaybook-pack.toml: " <> source_text resolved))
  load_pack resolved manifest true (broken text) = err (
      value_error
        ("could not read scenario pack manifest " <> source_text manifest <> ": " <> text))
  load_pack resolved manifest true (parsed document digest) = elim (as_obj (get "pack" document)) [
    | none ↦ err (value_error (source_text manifest <> ": missing [pack] table"))
    | some table ↦ pack_field table "id" (source_text manifest) >>= λ pack_id.
        pack_field table "version" (source_text manifest) >>= λ version.
        raise_if (not (is_identifier pack_id) || has_bad_part nothing pack_id)
          (source_text manifest <> ": pack.id contains unsafe characters")
        >> ok (record { id = pack_id; version = version; path = resolved })
  ]

  abbrev pub text_or_null : Option String → Value F
  text_or_null none = null
  text_or_null (some s) = str s

  unfoldable pub metadata : BenchmarkManifest → Fields F
  metadata manifest = field "schema_version" (int (pos 1)) (
      field "id" (str manifest.id) (
        field "version" (str manifest.version) (
          field "status" (text_or_null manifest.status) (
            field "tier" (text_or_null manifest.tier) (field "sha256" (str manifest.sha256) end)))))
