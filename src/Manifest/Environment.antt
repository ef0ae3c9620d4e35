-- ===== src/Manifest/Environment.antt =====
-- `ScenarioPack` and `Scenario` of integrations/host/scenario_pack.py, and `validate_environment` of
-- integrations/host/benchmark_manifest.py.
use replaybook.Prelude.{
  ◌≡◌, inl, inr, refl, String, Bool, true, false, not, Option, none, some, List, [], ◌∷◌, arith,
  All, Option-cases,
}
use replaybook.Prelude.Int.{ℤ, int_beq, int_eq}
use replaybook.Prelude.Eq.{◌==◌, string_eq}
use replaybook.Prelude.Dict.{Dict, lookup}
use replaybook.Prelude.Text.{FilePath, ◌<>◌, int_text}
use replaybook.Prelude.Result.{Result, ok, err, value_error, raise_if, ◌>>◌, raise_if-ok}
use replaybook.Manifest.{BenchmarkManifest, BenchmarkScenario}

pub record ScenarioPack : Type 0 where
  pub id : String
  pub version : String
  pub path : FilePath

pub record Scenario : Type 0 where
  pub id : String
  pub version : ℤ
  pub path : FilePath
  pub pack : ScenarioPack

-- `self.pack_version is not None and pack.version != self.pack_version`
abbrev pub other_version : Option String → String → Bool
other_version none v = false
other_version (some w) v = not (v == w)

abbrev pub version_or_empty : Option String → String
version_or_empty none = ""
version_or_empty (some v) = v

-- One round of the loop over the scenarios.
abbrev pub check_scenario : BenchmarkScenario → Option Scenario → Result (Unit {0})
check_scenario expected none = err (value_error ("benchmark scenario is missing: " <> expected.id))
check_scenario expected (some actual) = raise_if (not (int_beq actual.version expected.version)) (
    "benchmark scenario "
    <> expected.id
    <> " requires v"
    <> int_text expected.version
    <> ", found v"
    <> int_text actual.version)

unfoldable pub check_environment : Dict String Scenario → List BenchmarkScenario → Result (Unit {0})
check_environment discovered [] = ok tt
check_environment discovered (expected ∷ scenarios) =
    check_scenario expected (lookup expected.id discovered)
    >> check_environment discovered scenarios

abbrev pub check_pack :
    BenchmarkManifest → List ScenarioPack → Dict String Scenario → Result (Unit {0})
check_pack manifest (pack ∷ []) discovered = do
  raise_if (not (pack.id == manifest.pack_id))
      ("benchmark pack identity mismatch: expected " <> manifest.pack_id <> ", found " <> pack.id)
  raise_if (other_version manifest.pack_version pack.version) (
      "benchmark pack identity mismatch: expected "
      <> manifest.pack_id
      <> "@"
      <> version_or_empty manifest.pack_version
      <> ", found "
      <> pack.id
      <> "@"
      <> pack.version)
  check_environment discovered manifest.scenarios
check_pack manifest _ discovered =
    err (value_error "benchmark manifests must resolve exactly one scenario pack")

unfoldable pub validate_environment :
    BenchmarkManifest → List ScenarioPack → Dict String Scenario → ℤ → Result (Unit {0})
unfolding check_environment
validate_environment manifest packs discovered host_harness_version =
    raise_if (not (int_beq host_harness_version manifest.required_host_harness_version)) (
      "benchmark requires host harness v"
      <> int_text manifest.required_host_harness_version
      <> ", found v"
      <> int_text host_harness_version)
    >> check_pack manifest packs discovered

-- Every scenario of the manifest is discovered, with its version.
abbrev pub IsDiscovered : Dict String Scenario → BenchmarkScenario → Type 0
IsDiscovered discovered expected =
    (actual : Scenario) × (lookup expected.id discovered ≡ some actual)
    × (int_beq actual.version expected.version ≡ true)

check_environment-IsDiscovered :
    (discovered : Dict String Scenario) (scenarios : List BenchmarkScenario)
    → check_environment discovered scenarios ≡ ok tt
    → All (IsDiscovered discovered) scenarios
unfolding check_environment
check_environment-IsDiscovered discovered [] h = tt
check_environment-IsDiscovered discovered (expected ∷ scenarios) h =
    elim (Option-cases (lookup expected.id discovered)) [
      | inl missing ↦ absurd (cc (rw missing at h))
      | inr (actual, found) ↦
          let (same, k) =
            (raise_if-ok (not (int_beq actual.version expected.version)) _ _).0 (rw found at h) in
          (
            (actual, found, ground (arith, same)),
            check_environment-IsDiscovered discovered scenarios k,
          )
    ]

-- An environment that passes has the harness version of the manifest and exactly one pack, which
-- has its name and, where the manifest gives one, its version; and every scenario of the manifest
-- is discovered with its version.
pub validate_environment-IsDiscovered :
    (manifest : BenchmarkManifest) (packs : List ScenarioPack) (discovered : Dict String Scenario)
    (harness : ℤ)
    → validate_environment manifest packs discovered harness ≡ ok tt
    → (int_beq harness manifest.required_host_harness_version ≡ true)
      × ((pack : ScenarioPack) × (packs ≡ pack ∷ [])
          × ((pack.id == manifest.pack_id) ≡ true)
          × (other_version manifest.pack_version pack.version ≡ false))
      × All (IsDiscovered discovered) manifest.scenarios
unfolding validate_environment
validate_environment-IsDiscovered manifest (pack ∷ []) discovered harness h =
    let (e₁, h) =
      (raise_if-ok (not (int_beq harness manifest.required_host_harness_version)) _ _).0 h in
    let (e₂, h) = (raise_if-ok (not (pack.id == manifest.pack_id)) _ _).0 h in
    let (e₃, h) = (raise_if-ok (other_version manifest.pack_version pack.version) _ _).0 h in
    (
      ground (arith, e₁),
      (pack, refl, ground (arith, e₂), e₃),
      check_environment-IsDiscovered discovered manifest.scenarios h,
    )
validate_environment-IsDiscovered manifest [] discovered harness h =
    let (_, k) =
      (raise_if-ok (not (int_beq harness manifest.required_host_harness_version)) _ _).0 h in
    absurd (cc (k))
validate_environment-IsDiscovered manifest (p ∷ q ∷ packs) discovered harness h =
    let (_, k) =
      (raise_if-ok (not (int_beq harness manifest.required_host_harness_version)) _ _).0 h in
    absurd (cc (k))
