-- ===== src/Manifest/Discover/Different.antt =====
-- What `discover` of scenario_pack.py finds.
use replaybook.Prelude.{
  ℕ, ◌+◌, ◌*◌, ◌-◌, ◌≤◌, ◌<◌, lt→ltb, nat_beq, ◌&&◌, ◌≡◌, refl, sym, subst, inl, inr, String, true,
  not, Option, none, some, List, [], ◌∷◌, ◌++◌, map, All, All-append, All-imp, arith, Bool-cases,
  Option-cases,
}
use mathlib.Core.List.{map-append}
use Prim.Native.Char.{code}
use replaybook.Prelude.Int.{ℤ, pos, is_positive}
use replaybook.Prelude.Eq.{◌==◌, string_eq, elem, eq_self, Distinct, Distinct-snoc, elem-append}
use replaybook.Prelude.Text.{FilePath, is_digit}
use replaybook.Prelude.Dict.{Dict, lookup, lookup-none}
use replaybook.Prelude.Result.{ok, >>=-eq-ok, raise_if-ok, ok-injective}
use replaybook.Json.{Value, null, bool, int, float, str, arr, obj}
use replaybook.Json.Access.{get}
use replaybook.Matrix.Args.{is_scenario_id}
use replaybook.Manifest.Load.{ManifestFile, missing, broken, parsed}
use replaybook.Manifest.Environment.{ScenarioPack, Scenario}
use replaybook.Manifest.Pack.{load_pack}
use replaybook.Manifest.Discover.{
  ScenarioDir, PackDir, Discovered, is_quote, drop_quote, strip_prefix, digits_end, version_digits,
  line_version, first_version, lines, legacy_version, typed_version, version_in, scenario_version,
  add_scenario, scan_pack, discover_from, discover,
}

abbrev pub pack_ids : List ScenarioPack → List String
pack_ids packs = map (λ p. p.id) packs

abbrev pub keys_of : Dict String Scenario → List String
keys_of scenarios = map (λ p. p.0) scenarios

-- An entry of the scenarios, with the ids of the packs that it may come from.
pub record IsEntry (ids : List String) (entry : String × Scenario) : Type 0 where
  pub key : entry.0 ≡ entry.1.id
  pub safe : is_scenario_id entry.0 ≡ true
  pub version : is_positive entry.1.version ≡ true
  pub known : elem entry.1.pack.id ids ≡ true

-- The scenarios have different safe keys, versions above 0 and known packs.
pub record AreFound (ids : List String) (scenarios : Dict String Scenario) : Type 0 where
  pub keys : Distinct (keys_of scenarios)
  pub entries : All (IsEntry ids) scenarios

pub record IsDiscovery (d : Discovered) : Type 0 where
  pub packs : Distinct (pack_ids d.packs)
  pub found : AreFound (pack_ids d.packs) d.scenarios

digits_end-le : (n : ℕ) (s : String) (m : ℕ) → digits_end n s ≡ some m → n ≤ m
digits_end-le n String.[] m h = let same : n ≡ m = cc in omega (arith, same)
digits_end-le n (String.◌∷◌ c s) m h = elim (Bool-cases (is_digit c)) [
  | inl good ↦
      let more = digits_end-le (n * 10 + (code c - b'0')) s m (rw (digits_end, good) at h) in
      omega (arith, more)
  | inr bad ↦ elim (Bool-cases (is_quote c && s == "")) [
    | inl ends ↦ let same : n ≡ m = cc (rw (digits_end, bad, ends) at h) in omega (arith, same)
    | inr goes ↦ absurd (cc (rw (digits_end, bad, goes) at h))
  ]
]

version_digits-pos : (s : String) (m : ℕ) → version_digits s ≡ some m → 0 < m
version_digits-pos String.[] m h = absurd cc
version_digits-pos (String.◌∷◌ c s) m h =
    elim (Bool-cases (is_digit c && not (nat_beq (code c) b'0'))) [
      | inl good ↦
          let more = digits_end-le (code c - b'0') s m (rw (version_digits, good) at h) in
          ground (arith, more, good)
      | inr bad ↦ absurd (cc (rw (version_digits, bad) at h))
    ]

line_version-pos : (line : String) (m : ℕ) → line_version line ≡ some m → 0 < m
line_version-pos line m h = elim (Option-cases (strip_prefix "SCENARIO_VERSION=" line)) [
  | inl nothing ↦ absurd (cc (rw (line_version, nothing) at h))
  | inr (rest, found) ↦ version_digits-pos (drop_quote rest) m (rw (line_version, found) at h)
]

first_version-pos : (ls : List String) (m : ℕ) → first_version ls ≡ some m → 0 < m
first_version-pos [] m h = absurd cc
first_version-pos (line ∷ more) m h = elim (Option-cases (line_version line)) [
  | inl nothing ↦ first_version-pos more m (rw (first_version, nothing) at h)
  | inr (n, found) ↦
      let same : n ≡ m = cc (rw (first_version, found) at h) in
      subst (λ x. 0 < x) same (line_version-pos line n found)
]

new_known : (id : String) (ids : List String) → elem id (ids ++ id ∷ []) ≡ true
new_known id ids = ground (arith, elem-append id ids (id ∷ []), eq_self id)

-- What was found stays found when a pack is added.
AreFound-more :
    (ids : List String) (id : String) (scenarios : Dict String Scenario)
    → AreFound ids scenarios
    → AreFound (ids ++ id ∷ []) scenarios
AreFound-more ids id scenarios f = record {
  keys = f.keys;
  entries =
      All-imp (IsEntry ids) (IsEntry (ids ++ id ∷ []))
        (λ entry e. record {
          key = e.key;
          safe = e.safe;
          version = e.version;
          known = ground (arith, e.known, elem-append entry.1.pack.id ids (id ∷ []));
        })
        scenarios f.entries;
}

module _ {F : Type 0} where
  typed_version-is_positive :
      (v : Value F) (message : String) (z : ℤ)
      → typed_version v message ≡ ok z
      → is_positive z ≡ true
  typed_version-is_positive (int y) message z h = elim (Bool-cases (is_positive y)) [
    | inl p ↦ subst (λ x. is_positive x ≡ true) (ok-injective (rw p at h)) p
    | inr n ↦ absurd (cc (rw n at h))
  ]
  typed_version-is_positive null message z h = absurd cc
  typed_version-is_positive (bool b) message z h = absurd cc
  typed_version-is_positive (float x) message z h = absurd cc
  typed_version-is_positive (str s) message z h = absurd cc
  typed_version-is_positive (arr vs) message z h = absurd cc
  typed_version-is_positive (obj fs) message z h = absurd cc

  found_version :
      (name : String) (path : FilePath) (typed : ManifestFile F) (legacy : Option String) (z : ℤ)
      → scenario_version (record { name = name; path = path; typed = typed; legacy = legacy })
        ≡ ok (some z)
      → is_positive z ≡ true
  unfolding scenario_version
  found_version name path missing none z h = let same : none ≡ some z = ok-injective h in absurd cc
  found_version name path missing (some text) z h =
      elim (Option-cases (first_version (lines text))) [
        | inl nothing ↦ absurd (cc (rw (scenario_version, legacy_version, nothing) at h))
        | inr (n, found) ↦
            let e : some (pos n) ≡ some z =
              ok-injective (rw (scenario_version, legacy_version, found) at h) in
            let same : pos n ≡ z = cc in
            subst (λ x. is_positive x ≡ true) same
              (lt→ltb 0 n (first_version-pos (lines text) n found))
      ]
  found_version name path (broken text) legacy z h = absurd cc
  found_version name path (parsed document digest) legacy z h =
      let v = version_in (get "scenario" document) in
      let (y, e, k) = >>=-eq-ok (typed_version v _) _ h in
      let e' : some y ≡ some z = ok-injective k in
      let same : y ≡ z = cc in
      subst (λ x. is_positive x ≡ true) same (typed_version-is_positive v _ y e)

  add_scenario-AreFound :
      (ids : List String) (pack : ScenarioPack) (dir : ScenarioDir F) (version : ℤ)
      (scenarios more : Dict String Scenario)
      → elem pack.id ids ≡ true
      → is_positive version ≡ true
      → AreFound ids scenarios
      → add_scenario pack dir version scenarios ≡ ok more
      → AreFound ids more
  unfolding add_scenario
  add_scenario-AreFound ids pack dir version scenarios more known above f h =
      let (safe, h) = (raise_if-ok (not (is_scenario_id dir.name)) _ _).0 h in
      elim (Option-cases (lookup dir.name scenarios)) [
        | inr (previous, found) ↦ absurd (cc (rw found at h))
        | inl fresh ↦
            let entry : String × Scenario = (
              dir.name,
              record { id = dir.name; version = version; path = dir.path; pack = pack },
            ) in
            subst (AreFound ids) (ok-injective (rw fresh at h)) (record {
              keys = rw (map-append (λ p. p.0) scenarios (entry ∷ [])) (
                  Distinct-snoc dir.name (keys_of scenarios) f.keys
                    (lookup-none dir.name scenarios fresh));
              entries = All-append (IsEntry ids) scenarios (entry ∷ []) f.entries (
                record { key = refl; safe = ground (arith, safe); version = above; known = known },
                tt,
              );
            })
      ]

  scan_pack-AreFound :
      (ids : List String) (pack : ScenarioPack) (dirs : List (ScenarioDir F))
      (scenarios more : Dict String Scenario)
      → elem pack.id ids ≡ true
      → AreFound ids scenarios
      → scan_pack pack dirs scenarios ≡ ok more
      → AreFound ids more
  unfolding scan_pack
  scan_pack-AreFound ids pack [] scenarios more known f h = subst (AreFound ids) (ok-injective h) f
  scan_pack-AreFound ids pack (dir ∷ dirs) scenarios more known f h =
      let (found, e, h) = >>=-eq-ok (scenario_version dir) _ h in
      elim (Option-cases found) [
        | inl nothing ↦ scan_pack-AreFound ids pack dirs scenarios more known f (rw nothing at h)
        | inr (version, some_version) ↦
            let (added, a, h) =
              >>=-eq-ok (add_scenario pack dir version scenarios) _ (rw some_version at h) in
            let e' : scenario_version dir ≡ ok (some version) =
              subst (λ o. scenario_version dir ≡ ok o) some_version e in
            scan_pack-AreFound ids pack dirs added more known
              (add_scenario-AreFound ids pack dir version scenarios added known
                (found_version dir.name dir.path dir.typed dir.legacy version e') f a)
              h
      ]

  discover_from-IsDiscovery :
      (dirs : List (PackDir F)) (found d : Discovered)
      → IsDiscovery found
      → discover_from dirs found ≡ ok d
      → IsDiscovery d
  unfolding discover_from
  discover_from-IsDiscovery [] found d i h = subst IsDiscovery (ok-injective h) i
  discover_from-IsDiscovery (dir ∷ dirs) found d i h =
      let (pack, _, h) = >>=-eq-ok (load_pack dir.path dir.manifest dir.is_dir dir.file) _ h in
      let (fresh, h) = (raise_if-ok (elem pack.id (pack_ids found.packs)) _ _).0 h in
      let (scenarios, e, h) = >>=-eq-ok (scan_pack pack dir.children found.scenarios) _ h in
      let ids = map-append (λ (p : ScenarioPack). p.id) found.packs (pack ∷ []) in
      discover_from-IsDiscovery dirs
        (record { packs = found.packs ++ pack ∷ []; scenarios = scenarios }) d
        (record {
          packs =
              subst Distinct (sym ids) (Distinct-snoc pack.id (pack_ids found.packs) i.packs fresh);
          found =
              subst (λ l. AreFound l scenarios) (sym ids)
                (scan_pack-AreFound (pack_ids found.packs ++ pack.id ∷ []) pack dir.children
                  found.scenarios scenarios (new_known pack.id (pack_ids found.packs))
                  (AreFound-more (pack_ids found.packs) pack.id found.scenarios i.found) e);
        })
        h

  -- What is discovered has packs with different ids, and under different safe keys scenarios that carry
  -- their key as their id, a version above 0 and one of the packs.
  pub discover-IsDiscovery :
      (dirs : List (PackDir F)) (d : Discovered) → discover dirs ≡ ok d → IsDiscovery d
  unfolding discover
  discover-IsDiscovery dirs d h =
      discover_from-IsDiscovery dirs (record { packs = []; scenarios = [] }) d
        (record { packs = tt; found = record { keys = tt; entries = tt } }) h
