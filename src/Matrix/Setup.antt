-- ===== src/Matrix/Setup.antt =====
-- `ExecutionSnapshot`, `matrix_directory` and `resolve_openrouter_api_key` of
-- integrations/host/run_host_matrix.py. The environment's answers are inputs.
use replaybook.Prelude.{
  String, Bool, true, false, Option, none, some, List, ◌++◌, ◌&&◌, if◌then◌else◌,
}
use replaybook.Prelude.Int.{ℤ, pos, int_beq}
use replaybook.Prelude.Eq.{◌==◌, string_eq}
use replaybook.Prelude.Text.{FilePath, ◌<>◌}
use replaybook.Prelude.Result.{Result, ok, raise_if, ◌>>◌}
use replaybook.Json.{Fields}
use replaybook.Manifest.Load.{is_blank_char, source_text}

pub record ExecutionSnapshot (F : Type 0) : Type 0 where
  pub runner : FilePath
  pub scenario_pack_dirs : List FilePath
  pub agent_adapter : Option FilePath
  pub agent_payload : Option FilePath
  pub claux_binary : Option FilePath
  pub metadata : Fields F
  pub agent_config : Option FilePath

-- `.strip()`, for white space of ASCII.
unfoldable pub strip_left : String → String
strip_left String.[] = String.[]
strip_left (String.◌∷◌ c s) =
    let rest = strip_left s in if is_blank_char c then rest else String.◌∷◌ c s

unfoldable pub strip_right : String → String
strip_right String.[] = String.[]
strip_right (String.◌∷◌ c s) =
    let rest = strip_right s in
    if is_blank_char c && rest == "" then String.[] else String.◌∷◌ c rest

-- The exit status and the output of resolve-openrouter-key.sh are given.
unfoldable pub resolve_openrouter_api_key : ℤ → String → Option String
unfolding strip_left strip_right
resolve_openrouter_api_key returncode stdout =
    let key = strip_right (strip_left stdout) in
    if int_beq returncode (pos 0) then (if key == "" then none else some key) else none

-- Where a path stands: absolute, or inside the directory of the repository.
abbrev pub absolute : FilePath → Bool → FilePath → FilePath
absolute repo_dir true path = path
absolute repo_dir false path = repo_dir ++ path

abbrev pub chosen_directory : FilePath → Option (FilePath × Bool) → FilePath → FilePath
chosen_directory repo_dir none fresh = fresh
chosen_directory repo_dir (some (path, is_absolute)) fresh = absolute repo_dir is_absolute path

-- The supplied path is expanded, with whether it is absolute; `fresh` is the directory that is named
-- after the time where none is supplied.
unfoldable pub matrix_directory :
    (FilePath → Bool) → FilePath → Option (FilePath × Bool) → FilePath → Result FilePath
matrix_directory exists repo_dir supplied fresh =
    let path = chosen_directory repo_dir supplied fresh in
    raise_if (exists path) ("output directory already exists: " <> source_text path) >> ok path
