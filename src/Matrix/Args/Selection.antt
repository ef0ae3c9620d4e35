-- ===== src/Matrix/Args/Selection.antt =====
-- What `apply_benchmark_manifest` of run_host_matrix.py makes of the arguments.
use replaybook.Prelude.{
  ◌≡◌, ◌↔◌, refl, ap, sym, Bool, true, false, not, Option, none, some, [], ◌∷◌, ◌++◌, String, map,
  is_nil, All, if◌then◌else◌,
}
use replaybook.Prelude.Int.{pos}
use replaybook.Prelude.Eq.{elem, string_eq}
use replaybook.Prelude.Result.{raise_if-ok, ok, ok-injective}
use replaybook.Manifest.{BenchmarkManifest}
use replaybook.Matrix.Args.{
  Args, given, given_list, conflict_if, manifest_conflicts, selected_scenarios, apply_manifest,
}
use replaybook.Matrix.Args.Guards.{require_subset-ok}

-- The arguments as the manifest changes them.
abbrev pub with_manifest : Args → BenchmarkManifest → Args
with_manifest args manifest = record args {
  scenario_packs = some (manifest.pack_path ∷ []);
  scenarios = some (selected_scenarios args manifest);
  attempts = some (if args.oracle then pos 1 else manifest.attempts);
  agent_timeout_seconds = some manifest.agent_timeout_seconds;
}

-- The arguments leave packs, attempts and timeout to the manifest and select declared scenarios.
pub record IsSelection (args : Args) (manifest : BenchmarkManifest) : Type 0 where
  pub packs : given_list args.scenario_packs ≡ false
  pub attempts : args.attempts ≡ none
  pub timeout : args.agent_timeout_seconds ≡ none
  pub declared :
      All
        (λ s. elem s (map (λ d. d.id) manifest.scenarios) ≡ true)
        (selected_scenarios args manifest)

given-false {ℓ} : {A : Type ℓ} (o : Option A) → given o ≡ false → o ≡ none
given-false none h = refl
given-false (some a) h = absurd cc

no_conflicts :
    (a b c : Bool) (f g h : String)
    → (not (is_nil (conflict_if a f ++ conflict_if b g ++ conflict_if c h)) ≡ false)
      ↔ ((a ≡ false) × (b ≡ false) × (c ≡ false))
no_conflicts true b c f g h = ((λ k. absurd cc), (λ k. absurd (cc (k.0))))
no_conflicts false true c f g h = ((λ k. absurd cc), (λ k. let (_, e, _) = k in absurd (cc (e))))
no_conflicts false false true f g h =
    ((λ k. absurd cc), (λ k. let (_, _, e) = k in absurd (cc (e))))
no_conflicts false false false f g h = ((λ k. (refl, refl, refl)), (λ k. refl))

-- `apply_benchmark_manifest` with a manifest succeeds exactly on the arguments that leave packs,
-- attempts and timeout to it and select scenarios that it declares. It then takes the packs, the
-- attempts (1 for an oracle run) and the timeout from it, and its scenarios where none are selected.
pub apply_manifest_iff :
    (args changed : Args) (manifest : BenchmarkManifest)
    → (apply_manifest args manifest ≡ ok changed)
      ↔ (IsSelection args manifest × (changed ≡ with_manifest args manifest))
unfolding apply_manifest manifest_conflicts
apply_manifest_iff args changed manifest = (
  (λ h.
      let (e, h₁) = (raise_if-ok (not (is_nil (manifest_conflicts args))) _ _).0 h in
      let (declared, h₂) =
        (require_subset-ok (selected_scenarios args manifest) (map (λ d. d.id) manifest.scenarios) _
            _).0
          h₁ in
      let (packs, attempts, timeout) =
        (no_conflicts (given_list args.scenario_packs) (given args.attempts)
            (given args.agent_timeout_seconds) _ _ _).0
          e in
      (
        record {
          packs = packs;
          attempts = given-false args.attempts attempts;
          timeout = given-false args.agent_timeout_seconds timeout;
          declared = declared;
        },
        sym (ok-injective h₂),
      )),
  (λ (selection, e). (raise_if-ok (not (is_nil (manifest_conflicts args))) _ _).1 (
    (no_conflicts (given_list args.scenario_packs) (given args.attempts)
          (given args.agent_timeout_seconds) _ _ _).1
        (selection.packs, ap given selection.attempts, ap given selection.timeout),
    (require_subset-ok (selected_scenarios args manifest) (map (λ d. d.id) manifest.scenarios) _
          _).1
        (selection.declared, ap ok (sym e)),
  )),
)
