-- ===== src/Phase/Describe/Valid.antt =====
-- What `describe_manifest` of scenario_phase.py promises.
use replaybook.Prelude.{
  ℕ, ◌≤◌, ◌≡◌, refl, subst, ap, inl, inr, String, Bool, true, false, not, Option, none, some, List,
  [], ◌∷◌, map, length, is_nil, all, All, ltb, nat_beq, arith, Bool-cases, Option-cases,
  if◌then◌else◌, length-map,
}
use replaybook.Prelude.Int.{ℤ, is_positive}
use replaybook.Prelude.Eq.{◌==◌, string_eq, elem, unique, Distinct, length-unique_iff}
use replaybook.Prelude.Result.{
  ok, raise_if-ok, >>=-eq-ok, ok-injective, or_raise, or_raise-ok, map_result-All, map_result,
}
use replaybook.Json.{Value, null, bool, int, float, str, arr, obj, nil, Fields}
use replaybook.Json.Access.{get, get_or, as_obj}
use replaybook.Matrix.Slug.{lower}
use replaybook.Phase.Values.{string_value, nonempty_text, str_or_null}
use replaybook.Phase.Describe.{
  path_parts, starts_with_slash, path_suffix, image_suffixes, is_unsafe_artifact, check_artifacts,
  text_length, strip, is_forbidden_entry, is_scan_path, filled_list, LeakAudit, Description,
  file_fields, service_fields, texts_of, texts_with, some_texts_with, image_artifacts_config,
  audit_of, leak_audit_config, version_of, services_of, step_count, describe_manifest,
}

-- A relative path that stays inside its directory and names an image.
pub record IsImagePath (path : String) : Type 0 where
  pub relative : starts_with_slash path ≡ false
  pub named : is_nil (path_parts path) ≡ false
  pub inside : elem ".." (path_parts path) ≡ false
  pub image : elem (lower (path_suffix (path_parts path))) image_suffixes ≡ true

-- A guest path to scan: absolute and without a step up.
pub record IsGuestPath (path : String) : Type 0 where
  pub rooted : starts_with_slash path ≡ true
  pub below : (path == "/") ≡ false
  pub inside : elem ".." (path_parts path) ≡ false

-- A secret to look for: long enough behind its strip.
abbrev pub IsSecret : String → Type 0
IsSecret secret = 4 ≤ text_length secret

pub record IsAudit (audit : LeakAudit) : Type 0 where
  pub secrets : All IsSecret audit.forbidden_strings
  pub different : Distinct (map lower audit.forbidden_strings)
  pub paths : All IsGuestPath audit.scan_paths
  pub distinct : Distinct audit.scan_paths

pub record IsArtifacts (artifacts : List String) : Type 0 where
  pub few : length artifacts ≤ 8
  pub distinct : Distinct artifacts
  pub images : All IsImagePath artifacts

abbrev pub IsNamed : String → Type 0
IsNamed s = (s == "") ≡ false

abbrev pub IsServices : List String → Type 0
IsServices services = (is_nil services ≡ false) × All IsNamed services

-- A description that is returned.
pub record IsValid (d : Description) : Type 0 where
  pub version : is_positive d.version ≡ true
  pub files : All IsNamed d.files
  pub services : All IsServices d.services
  pub artifacts : IsArtifacts d.image_artifacts
  pub audit : IsAudit d.leak_audit

all-All :
    (p : String → Bool) (P : String → Type 0) (f : (s : String) → p s ≡ true → P s)
    (texts : List String)
    → all p texts ≡ true
    → All P texts
all-All p P f [] h = tt
all-All p P f (s ∷ texts) h = (f s (ground (arith, h)), all-All p P f texts (ground (arith, h)))

same_length : (m n : ℕ) → not (nat_beq m n) ≡ false → m ≡ n
same_length m n h = ground arith

few_items : (n : ℕ) → ltb 8 n ≡ false → n ≤ 8
few_items n h = ground arith

check_artifacts-All : (paths : List String) → check_artifacts paths ≡ ok tt → All IsImagePath paths
unfolding check_artifacts
check_artifacts-All [] h = tt
check_artifacts-All (path ∷ paths) h =
    let (safe, h) = (raise_if-ok (is_unsafe_artifact path) _ _).0 h in
    let (image, h) =
      (raise_if-ok (not (elem (lower (path_suffix (path_parts path))) image_suffixes)) _ _).0 h in
    (
      record {
        relative = ground (arith, safe);
        named = ground (arith, safe);
        inside = ground (arith, safe);
        image = ground (arith, image);
      },
      check_artifacts-All paths h,
    )

secret-length : (s : String) → is_forbidden_entry s ≡ true → 4 ≤ text_length (strip s)
secret-length s h = ground (arith, h)

secrets-All :
    (texts : List String) → all is_forbidden_entry texts ≡ true → All IsSecret (map strip texts)
secrets-All [] h = tt
secrets-All (s ∷ texts) h =
    (secret-length s (ground (arith, h)), secrets-All texts (ground (arith, h)))

lower-strip :
    (texts : List String) → map (λ value. lower (strip value)) texts ≡ map lower (map strip texts)
lower-strip [] = refl
lower-strip (s ∷ texts) = ap (λ l. lower (strip s) ∷ l) (lower-strip texts)

different_secrets :
    (texts : List String)
    → not (
        nat_beq
          (length (unique (map (λ value. lower (strip value)) texts)))
          (length (map strip texts)))
      ≡ false
    → Distinct (map lower (map strip texts))
different_secrets texts h = (length-unique_iff (map lower (map strip texts))).0 (
    ground (
      arith,
      same_length _ _ h,
      ap (λ l. length (unique l)) (lower-strip texts),
      length-map (map strip texts) lower,
    ))

guest_path : (s : String) → is_scan_path s ≡ true → IsGuestPath s
guest_path s h = record {
  rooted = ground (arith, h);
  below = ground (arith, h);
  inside = ground (arith, h);
}

kept-all :
    (p : String → Bool) (ts texts : List String)
    → (if all p ts then some ts else none) ≡ some texts
    → all p texts ≡ true
kept-all p ts texts h = elim (Bool-cases (all p ts)) [
  | inl good ↦ subst (λ l. all p l ≡ true) (cc (rw good at h)) good
  | inr bad ↦ absurd (cc (rw bad at h))
]

kept-some :
    (ts texts : List String)
    → (if is_nil ts then none else some ts) ≡ some texts
    → (ts ≡ texts) × (is_nil texts ≡ false)
kept-some [] texts h = absurd cc
kept-some (t ∷ ts) texts h =
    let same : t ∷ ts ≡ texts = cc in (same, subst (λ l. is_nil l ≡ false) same refl)

module _ {F : Type 0} where
  texts_with-all :
      (p : String → Bool) (v : Value F) (texts : List String)
      → texts_with p v ≡ some texts
      → all p texts ≡ true
  texts_with-all p v texts h = elim (Option-cases (texts_of v)) [
    | inl nothing ↦ absurd (cc (rw (texts_with, nothing) at h))
    | inr (ts, e) ↦ kept-all p ts texts (rw (texts_with, e) at h)
  ]

  some_texts_with-all :
      (p : String → Bool) (v : Value F) (texts : List String)
      → some_texts_with p v ≡ some texts
      → (is_nil texts ≡ false) × (all p texts ≡ true)
  some_texts_with-all p v texts h = elim (Option-cases (texts_with p v)) [
    | inl nothing ↦ absurd (cc (rw (some_texts_with, nothing) at h))
    | inr (ts, e) ↦
        let (same, some_text) = kept-some ts texts (rw (some_texts_with, e) at h) in
        (some_text, subst (λ l. all p l ≡ true) same (texts_with-all p v ts e))
  ]

  image_artifacts_config-IsArtifacts :
      (scenario : Fields F) (artifacts : List String)
      → image_artifacts_config scenario ≡ ok artifacts
      → IsArtifacts artifacts
  unfolding image_artifacts_config
  image_artifacts_config-IsArtifacts scenario artifacts h =
      let v = get_or "image_artifacts" (arr nil) scenario in
      let (found, e, h) = >>=-eq-ok (or_raise (texts_with (λ path. not (path == "")) v) _) _ h in
      let (few, h) = (raise_if-ok (ltb 8 (length found)) _ _).0 h in
      let (distinct, h) =
        (raise_if-ok (not (nat_beq (length found) (length (unique found)))) _ _).0 h in
      let (_, images, h) = >>=-eq-ok (check_artifacts found) _ h in
      subst IsArtifacts (ok-injective h) (record {
        few = few_items (length found) few;
        distinct = (length-unique_iff found).0 (same_length _ _ distinct);
        images = check_artifacts-All found images;
      })

  audit_of-IsAudit :
      (config : Fields F) (audit : LeakAudit) → audit_of config ≡ ok audit → IsAudit audit
  unfolding audit_of
  audit_of-IsAudit config audit h =
      let v = get "forbidden_strings" config in
      let w = get_or "scan_paths" (arr nil) config in
      let (_, _, h) = >>=-eq-ok (or_raise (filled_list v) _) _ h in
      let (forbidden, e, h) = >>=-eq-ok (or_raise (texts_with is_forbidden_entry v) _) _ h in
      let (different, h) =
        (raise_if-ok
            (not (
              nat_beq (length (unique (map (λ value. lower (strip value)) forbidden)))
                (length (map strip forbidden))))
            _ _).0
          h in
      let (paths, k, h) = >>=-eq-ok (or_raise (texts_with is_scan_path w) _) _ h in
      let (distinct, h) =
        (raise_if-ok (not (nat_beq (length paths) (length (unique paths)))) _ _).0 h in
      subst IsAudit (ok-injective h) (record {
        secrets =
            secrets-All forbidden
              (texts_with-all is_forbidden_entry v forbidden (or_raise-ok _ _ forbidden e));
        different = different_secrets forbidden different;
        paths =
            all-All is_scan_path IsGuestPath guest_path paths
              (texts_with-all is_scan_path w paths (or_raise-ok _ _ paths k));
        distinct = (length-unique_iff paths).0 (same_length _ _ distinct);
      })

  leak_audit_config-IsAudit :
      (v : Value F) (audit : LeakAudit) → leak_audit_config v ≡ ok audit → IsAudit audit
  unfolding leak_audit_config
  leak_audit_config-IsAudit null audit h =
      subst IsAudit (ok-injective h)
        (record { secrets = tt; different = tt; paths = tt; distinct = tt })
  leak_audit_config-IsAudit (obj config) audit h = audit_of-IsAudit config audit h
  leak_audit_config-IsAudit (bool b) audit h = absurd cc
  leak_audit_config-IsAudit (int z) audit h = absurd cc
  leak_audit_config-IsAudit (float x) audit h = absurd cc
  leak_audit_config-IsAudit (str s) audit h = absurd cc
  leak_audit_config-IsAudit (arr vs) audit h = absurd cc

  version_of-is_positive : (v : Value F) (z : ℤ) → version_of v ≡ ok z → is_positive z ≡ true
  version_of-is_positive (int y) z h = elim (Bool-cases (is_positive y)) [
    | inl p ↦ subst (λ x. is_positive x ≡ true) (ok-injective (rw p at h)) p
    | inr n ↦ absurd (cc (rw n at h))
  ]
  version_of-is_positive null z h = absurd cc
  version_of-is_positive (bool b) z h = absurd cc
  version_of-is_positive (float x) z h = absurd cc
  version_of-is_positive (str s) z h = absurd cc
  version_of-is_positive (arr vs) z h = absurd cc
  version_of-is_positive (obj fs) z h = absurd cc

  services_of-IsServices :
      (scenario : Fields F) (key : String) (services : List String)
      → services_of scenario key ≡ ok services
      → IsServices services
  services_of-IsServices scenario key services h =
      let (nonempty, named) =
        some_texts_with-all (λ service. not (service == "")) (get key scenario) services
          (or_raise-ok _ _ services h) in
      (nonempty, all-All _ IsNamed (λ s e. ground (arith, e)) services named)

  nonempty_text-IsNamed : (v : Value F) (key s : String) → nonempty_text v key ≡ ok s → IsNamed s
  nonempty_text-IsNamed (str t) key s h = elim (Bool-cases (t == "")) [
    | inl e ↦ absurd (cc (rw e at h))
    | inr n ↦ subst IsNamed (ok-injective (rw n at h)) n
  ]
  nonempty_text-IsNamed null key s h = absurd cc
  nonempty_text-IsNamed (bool b) key s h = absurd cc
  nonempty_text-IsNamed (float x) key s h = absurd cc
  nonempty_text-IsNamed (int z) key s h = absurd cc
  nonempty_text-IsNamed (arr vs) key s h = absurd cc
  nonempty_text-IsNamed (obj fs) key s h = absurd cc

  string_value-IsNamed :
      (step : Fields F) (key : String) (default : Option String) (s : String)
      → string_value step key default ≡ ok s
      → IsNamed s
  unfolding string_value
  string_value-IsNamed step key default s h =
      nonempty_text-IsNamed (get_or key (str_or_null default) step) key s h

module _ {F : Type 0} where
  -- A description that is returned has a version above 0, non-empty file names and services, at most
  -- 8 different image artifacts, each an image path that stays inside its directory, and a leak audit
  -- whose secrets have at least four characters and differ by more than case, with different absolute
  -- guest paths.
  pub describe_manifest-IsValid :
      (manifest : Fields F) (d : Description) → describe_manifest manifest ≡ ok d → IsValid d
  unfolding describe_manifest
  describe_manifest-IsValid manifest d h =
      let (scenario, _, h) = >>=-eq-ok (or_raise (as_obj (get "scenario" manifest)) _) _ h in
      let (version, e₁, h) = >>=-eq-ok (version_of (get "version" scenario)) _ h in
      let (files, e₂, h) =
        >>=-eq-ok (map_result (λ key. string_value scenario key none) file_fields) _ h in
      let (services, e₃, h) = >>=-eq-ok (map_result (services_of scenario) service_fields) _ h in
      let (artifacts, e₄, h) = >>=-eq-ok (image_artifacts_config scenario) _ h in
      let (_, _, h) = >>=-eq-ok (step_count manifest "preflight") _ h in
      let (_, _, h) = >>=-eq-ok (step_count manifest "verify") _ h in
      let (audit, e₅, h) = >>=-eq-ok (leak_audit_config (get "guest_leak_audit" manifest)) _ h in
      subst IsValid (ok-injective h) (record {
        version = version_of-is_positive (get "version" scenario) version e₁;
        files =
            map_result-All _ IsNamed (λ key s e. string_value-IsNamed scenario key none s e)
              file_fields files e₂;
        services =
            map_result-All _ IsServices (services_of-IsServices scenario) service_fields services
              e₃;
        artifacts = image_artifacts_config-IsArtifacts scenario artifacts e₄;
        audit = leak_audit_config-IsAudit (get "guest_leak_audit" manifest) audit e₅;
      })
