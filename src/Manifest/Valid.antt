-- ===== src/Manifest/Valid.antt =====
-- What the loader of benchmark_manifest.py promises of a manifest.
use replaybook.Prelude.{
  ℕ, ◌+◌, inl, inr, ◌≡◌, refl, subst, String, Bool, true, false, not, ◌||◌, List, [], ◌∷◌, map,
  arith, All, Bool-cases,
}
use replaybook.Prelude.Int.{ℤ, pos, is_positive}
use replaybook.Prelude.Eq.{string_eq, elem, Distinct, eq_self}
use replaybook.Prelude.Text.{FilePath}
use replaybook.Prelude.Result.{ok, >>=-eq-ok, ok-injective, raise_if-ok}
use replaybook.Json.{Value, null, bool, int, float, str, arr, obj, Fields}
use replaybook.Json.Floats.{Floats}
use replaybook.Json.Access.{get, eq_int}
use replaybook.Manifest.{BenchmarkManifest, BenchmarkScenario}
use replaybook.Manifest.Load.{
  ManifestFile, missing, broken, parsed, is_identifier, has_slash, source_text, parent, is_within,
  table, string_field, optional_string_field, positive, positive_int, scenario_entry,
  scenario_entries, nonempty_list, require_true, required_checks, optional_nonblank, checked_tier,
  manifest_of, load_benchmark_manifest,
}

-- A scenario of a manifest: a safe name and a version above 0.
pub record IsEntry (s : BenchmarkScenario) : Type 0 where
  pub name : is_identifier s.id ≡ true
  pub flat : has_slash s.id ≡ false
  pub version : is_positive s.version ≡ true

abbrev pub ids : List BenchmarkScenario → List String
ids scenarios = map (λ s. s.id) scenarios

-- The entries behind those seen: safe, and no name twice.
record AreEntries (seen : List String) (scenarios : List BenchmarkScenario) : Type 0 where
  entries : All IsEntry scenarios
  fresh : (a : String) → elem a seen ≡ true → elem a (ids scenarios) ≡ false
  distinct : Distinct (ids scenarios)

-- A manifest that the loader returns.
pub record IsValid (m : BenchmarkManifest) : Type 0 where
  pub attempts : is_positive m.attempts ≡ true
  pub timeout : is_positive m.agent_timeout_seconds ≡ true
  pub harness : is_positive m.required_host_harness_version ≡ true
  pub name : is_identifier m.id ≡ true
  pub pack_name : is_identifier m.pack_id ≡ true
  pub inside : is_within (parent m.path) m.pack_path ≡ true
  pub entries : All IsEntry m.scenarios
  pub distinct : Distinct (ids m.scenarios)

not-false : (b : Bool) → not b ≡ false → b ≡ true
not-false b h = ground arith

module _ {F : Type 0} where
  positive-is_positive :
      (v : Value F) (message : String) (z : ℤ) → positive v message ≡ ok z → is_positive z ≡ true
  positive-is_positive (int y) message z h = elim (Bool-cases (is_positive y)) [
    | inl p ↦ subst (λ x. is_positive x ≡ true) (ok-injective (rw p at h)) p
    | inr n ↦ absurd (cc (rw n at h))
  ]
  positive-is_positive null message z h = cc
  positive-is_positive (bool b) message z h = cc
  positive-is_positive (float x) message z h = cc
  positive-is_positive (str s) message z h = cc
  positive-is_positive (arr vs) message z h = cc
  positive-is_positive (obj fs) message z h = cc

  positive_int-is_positive :
      (value : Fields F) (key source : String) (z : ℤ)
      → positive_int value key source ≡ ok z
      → is_positive z ≡ true
  unfolding positive_int
  positive_int-is_positive value key source z h = positive-is_positive (get key value) _ z h

  scenario_entry-IsEntry :
      (source : String) (seen : List String) (index : ℕ) (v : Value F) (s : BenchmarkScenario)
      → scenario_entry source seen index v ≡ ok s
      → IsEntry s × (elem s.id seen ≡ false)
  unfolding scenario_entry
  scenario_entry-IsEntry source seen index (obj item) s h =
      let (id, _, h₁) = >>=-eq-ok (string_field item "id" source) _ h in
      let (version, e, h₂) = >>=-eq-ok (positive_int item "version" source) _ h₁ in
      let (safe, h₃) = (raise_if-ok (not (is_identifier id) || has_slash id) _ _).0 h₂ in
      let (new, h₄) = (raise_if-ok (elem id seen) _ _).0 h₃ in
      subst (λ s. IsEntry s × (elem s.id seen ≡ false)) (ok-injective h₄)
        (
          record {
            name = ground (arith, safe);
            flat = ground (arith, safe);
            version = positive_int-is_positive item "version" source version e;
          },
          new,
        )
  scenario_entry-IsEntry source seen index null s h = cc
  scenario_entry-IsEntry source seen index (bool b) s h = cc
  scenario_entry-IsEntry source seen index (int z) s h = cc
  scenario_entry-IsEntry source seen index (float x) s h = cc
  scenario_entry-IsEntry source seen index (str t) s h = cc
  scenario_entry-IsEntry source seen index (arr vs) s h = cc

  scenario_entries-AreEntries :
      (source : String) (seen : List String) (index : ℕ) (items : List (Value F))
      (scenarios : List BenchmarkScenario)
      → scenario_entries source seen index items ≡ ok scenarios
      → AreEntries seen scenarios
  unfolding scenario_entries
  scenario_entries-AreEntries source seen index [] scenarios h =
      subst (AreEntries seen) (ok-injective h)
        (record { entries = tt; fresh = λ a k. refl; distinct = tt })
  scenario_entries-AreEntries source seen index (item ∷ items) scenarios h =
      let (s, e, h₁) = >>=-eq-ok (scenario_entry source seen index item) _ h in
      let (rest, e', h₂) =
        >>=-eq-ok (scenario_entries source (s.id ∷ seen) (index + 1) items) _ h₁ in
      let (entry, new) = scenario_entry-IsEntry source seen index item s e in
      let r = scenario_entries-AreEntries source (s.id ∷ seen) (index + 1) items rest e' in
      subst (AreEntries seen) (ok-injective h₂) (record {
        entries = (entry, r.entries);
        fresh = λ a k. ground (arith, r.fresh a, new, (string_eq).beq_iff s.id a);
        distinct = (r.fresh s.id (ground (arith, eq_self s.id)), r.distinct);
      })

module _ {F : Type 0} ⦃fl : Floats F⦄ (resolve : FilePath → String → FilePath) where
  manifest_of-IsValid :
      (path : FilePath) (document : Fields F) (digest : String) (m : BenchmarkManifest)
      → manifest_of resolve path document digest ≡ ok m
      → IsValid m
  unfolding manifest_of
  manifest_of-IsValid path document digest m h =
      let source = source_text path in
      let (_, h) = (raise_if-ok (not (eq_int (get "schema_version" document) (pos 1))) _ _).0 h in
      let (benchmark, _, h) = >>=-eq-ok (table document "benchmark" source) _ h in
      let (pack, _, h) = >>=-eq-ok (table document "pack" source) _ h in
      let (verification, _, h) = >>=-eq-ok (table document "verification" source) _ h in
      let (id, _, h) = >>=-eq-ok (string_field benchmark "id" source) _ h in
      let (pack_id, _, h) = >>=-eq-ok (string_field pack "id" source) _ h in
      let (name, h) = (raise_if-ok (not (is_identifier id)) _ _).0 h in
      let (pack_name, h) = (raise_if-ok (not (is_identifier pack_id)) _ _).0 h in
      let (value, _, h) = >>=-eq-ok (string_field pack "path" source) _ h in
      let (inside, h) =
        (raise_if-ok (not (is_within (parent path) (resolve (parent path) value))) _ _).0 h in
      let (items, _, h) = >>=-eq-ok (nonempty_list (get "scenarios" document) _) _ h in
      let (scenarios, e, h) = >>=-eq-ok (scenario_entries source [] 1 items) _ h in
      let (_, _, h) = >>=-eq-ok (require_true verification source required_checks) _ h in
      let (_, _, h) = >>=-eq-ok (optional_nonblank (get "status" benchmark) _) _ h in
      let (_, _, h) = >>=-eq-ok (checked_tier (get "tier" benchmark) _) _ h in
      let (_, _, h) = >>=-eq-ok (string_field benchmark "version" source) _ h in
      let (_, _, h) = >>=-eq-ok (optional_string_field pack "version" source) _ h in
      let (attempts, e₁, h) = >>=-eq-ok (positive_int benchmark "attempts" source) _ h in
      let (timeout, e₂, h) =
        >>=-eq-ok (positive_int benchmark "agent_timeout_seconds" source) _ h in
      let (harness, e₃, h) =
        >>=-eq-ok (positive_int benchmark "required_host_harness_version" source) _ h in
      let r = scenario_entries-AreEntries source [] 1 items scenarios e in
      subst IsValid (ok-injective h) (record {
        attempts = positive_int-is_positive benchmark "attempts" source attempts e₁;
        timeout = positive_int-is_positive benchmark "agent_timeout_seconds" source timeout e₂;
        harness =
            positive_int-is_positive benchmark "required_host_harness_version" source harness e₃;
        name = not-false _ name;
        pack_name = not-false _ pack_name;
        inside = not-false _ inside;
        entries = r.entries;
        distinct = r.distinct;
      })

  -- A manifest that the loader returns has attempts, timeout and harness version above 0, safe names,
  -- a pack inside the directory of the manifest, and scenarios with safe and different names and
  -- versions above 0.
  pub load_benchmark_manifest-IsValid :
      (path : FilePath) (file : ManifestFile F) (m : BenchmarkManifest)
      → load_benchmark_manifest resolve path file ≡ ok m
      → IsValid m
  unfolding load_benchmark_manifest
  load_benchmark_manifest-IsValid path missing m h = absurd (cc)
  load_benchmark_manifest-IsValid path (broken text) m h = absurd (cc)
  load_benchmark_manifest-IsValid path (parsed document digest) m h =
      manifest_of-IsValid path document digest m h
