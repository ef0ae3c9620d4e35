-- ===== src/Plan/Commands/Covers.antt =====
-- That the commands of `build_commands` in benchmark_plan.py fill every gap.
use replaybook.Prelude.{
  ℕ, ◌+◌, ◌*◌, ◌≡◌, refl, sym, ap, ◌∙◌, subst, inl, inr, String, List, [], ◌∷◌, map, ltb, leb, All,
  Bool-cases,
}
use mathlib.Core.List.{Memᴰ}
use replaybook.Prelude.Int.{ℤ}
use replaybook.Prelude.Eq.{string_eq, option_eq, list_eq, pair_eq, unique, elem-unique}
use replaybook.Prelude.Order.{string_leb, sort}
use replaybook.Prelude.Groups.{group_into}
use replaybook.Prelude.Members.{
  Mem-sort, All-Mem, elem-Mem, Mem-elem, Mem-map, Mem-map_result, InGroup-group_into,
}
use replaybook.Prelude.Result.{ok, >>=-eq-ok, map_result, ok-injective}
use replaybook.Manifest.{BenchmarkManifest}
use replaybook.Plan.Lanes.{Lane}
use replaybook.Plan.Gaps.{Gap}
use replaybook.Matrix.Report.{or_empty}
use replaybook.Plan.Commands.{
  CommandPlan, Ranked, GroupKey, first_of, lane_entry, indexed_id, manifest_order, rank, ranked_leb,
  trials_of, plan_loop, build_commands, command_plan,
}

-- The command runs the scenario of the gap with its model, provider and effort.
pub record Fills (gap : Gap) (p : CommandPlan) : Type 0 where
  pub scenario : Memᴰ gap.scenario p.scenarios
  pub model : Memᴰ gap.lane.1.0 p.models
  pub provider : p.provider ≡ gap.lane.0
  pub effort : p.reasoning_effort ≡ gap.lane.1.1

abbrev pub IsFilled : List CommandPlan → Gap → Type 0
IsFilled plans gap = (p : CommandPlan) × Memᴰ p plans × Fills gap p

module _ (manifest : BenchmarkManifest) (concurrency : ℤ) where
  plan_loop-Mem :
      (groups : List Ranked) (port : ℕ) (plans : List CommandPlan) (r : ℕ × String) (key : GroupKey)
      (models : List String)
      → Memᴰ (r, (key, models)) groups
      → plan_loop manifest concurrency groups port ≡ ok plans
      → (p : CommandPlan) × Memᴰ p plans
        × (p.scenarios ≡ key.1.1)
        × (p.models ≡ sort string_leb models)
        × (p.provider ≡ key.0)
        × (p.reasoning_effort ≡ key.1.0)
  unfolding plan_loop
  plan_loop-Mem [] port plans r key models m h = elim m [ ]
  plan_loop-Mem ((r', (key', models')) ∷ groups) port plans r key models m h =
      let trials = trials_of manifest key'.1.1 (sort string_leb models') in
      elim (Bool-cases (ltb 65536 (port + trials * 2))) [
        | inl over ↦ absurd (cc (rw over at h))
        | inr fits ↦
            let (rest, e, k) =
              >>=-eq-ok (plan_loop manifest concurrency groups (port + trials * 2)) _
                (rw fits at h) in
            elim m [
              | Memᴰ.head same ↦ (
                command_plan manifest concurrency key' (sort string_leb models') port,
                subst (Memᴰ _) (ok-injective k) (Memᴰ.head refl),
                ap (λ (g : Ranked). g.1.0.1.1) (sym same),
                ap (λ (g : Ranked). sort string_leb g.1.1) (sym same),
                ap (λ (g : Ranked). g.1.0.0) (sym same),
                ap (λ (g : Ranked). g.1.0.1.0) (sym same),
              )
              | Memᴰ.tail n ↦
                  let (p, there, a, b, c, d) =
                    plan_loop-Mem groups (port + trials * 2) rest r key models n e in
                  (p, subst (Memᴰ p) (ok-injective k) (Memᴰ.tail there), a, b, c, d)
            ]
      ]

  -- The entry of a lane names its model and each scenario that the lane misses.
  lane_entry-Mem :
      (lane : Lane) (gaps : List Gap) (gap : Gap) (key : GroupKey) (model : String)
      → Memᴰ gap gaps
      → lane_entry manifest (lane, gaps) ≡ ok (key, model)
      → (model ≡ lane.1.0) × (key.0 ≡ lane.0) × (key.1.0 ≡ lane.1.1) × Memᴰ gap.scenario key.1.1
  lane_entry-Mem lane gaps gap key model m h =
      let ids = unique (map (λ gap. gap.scenario) gaps) in
      let (indexed, e, k) = >>=-eq-ok (map_result (indexed_id manifest) ids) _ h in
      let there : Memᴰ gap.scenario ids = Mem-elem gap.scenario ids (
        elem-unique gap.scenario (map (λ gap. gap.scenario) gaps)
        ∙ elem-Mem gap.scenario (Mem-map (λ gap. gap.scenario) m)) in
      let (pair, e', n) = Mem-map_result (indexed_id manifest) indexed there e in
      let (index, _, found) = >>=-eq-ok (manifest_order manifest gap.scenario) _ e' in
      let placed : Memᴰ gap.scenario (map (λ p. p.1) (sort (λ p q. leb p.0 q.0) indexed)) =
        subst (λ s. Memᴰ s (map (λ p. p.1) (sort (λ p q. leb p.0 q.0) indexed)))
          (ap (λ p. p.1) (sym (ok-injective found)))
          (Mem-map (λ p. p.1) (Mem-sort (λ p q. leb p.0 q.0) pair indexed n)) in
      let same = ok-injective k in
      (
        ap (λ x. x.1) (sym same),
        ap (λ x. x.0.0) (sym same),
        ap (λ x. x.0.1.0) (sym same),
        subst (λ x. Memᴰ gap.scenario x.0.1.1) same placed,
      )

  rank-ok :
      (key : GroupKey) (entries : List (GroupKey × String)) (ranked : Ranked)
      → rank manifest (key, entries) ≡ ok ranked
      → (r : ℕ × String) × ((r, (key, map (λ e. e.1) entries)) ≡ ranked)
  rank-ok key entries ranked h =
      let (first, _, h) = >>=-eq-ok (first_of key.1.1) _ h in
      let (index, _, h) = >>=-eq-ok (manifest_order manifest first) _ h in
      ((index, or_empty key.0), ok-injective h)

  gap-IsFilled :
      (gaps : List Gap) (base_port : ℕ) (plans : List CommandPlan)
      → build_commands manifest concurrency gaps base_port ≡ ok plans
      → (gap : Gap) → Memᴰ gap gaps
      → IsFilled plans gap
  unfolding build_commands
  gap-IsFilled gaps base_port plans h gap m =
      let (entries, by_lane, h) =
        >>=-eq-ok (map_result (lane_entry manifest) (group_into (λ gap. gap.lane) gaps [])) _ h in
      let (ranked, by_key, h) =
        >>=-eq-ok (map_result (rank manifest) (group_into (λ e. e.0) entries [])) _ h in
      let (missing, at_lane, gap_there) = InGroup-group_into (λ (g : Gap). g.lane) gap [] m in
      let ((key, model), entry, entry_there) =
        Mem-map_result (lane_entry manifest) entries at_lane by_lane in
      let (same_model, same_provider, same_effort, scenario_there) =
        lane_entry-Mem gap.lane missing gap key model gap_there entry in
      let (grouped, at_key, model_there) =
        InGroup-group_into (λ (e : GroupKey × String). e.0) (key, model) [] entry_there in
      let (ranking, ranks, ranking_there) = Mem-map_result (rank manifest) ranked at_key by_key in
      let (r, same) = rank-ok key grouped ranking ranks in
      let models = map (λ (e : GroupKey × String). e.1) grouped in
      let (p, there, scenarios, sorted, provider, effort) =
        plan_loop-Mem (sort ranked_leb ranked) base_port plans r key models
          (subst (λ x. Memᴰ x (sort ranked_leb ranked)) (sym same)
            (Mem-sort ranked_leb ranking ranked ranking_there))
          h in
      (
        p,
        there,
        record {
          scenario = subst (Memᴰ gap.scenario) (sym scenarios) scenario_there;
          model = subst (Memᴰ gap.lane.1.0) (sym sorted) (
              Mem-sort string_leb gap.lane.1.0 models (
                subst (λ x. Memᴰ x models) same_model
                  (Mem-map (λ (e : GroupKey × String). e.1) model_there)));
          provider = provider ∙ same_provider;
          effort = effort ∙ same_effort;
        },
      )

  -- Each gap is filled by a command: one that runs its scenario with its model, provider and effort.
  pub build_commands-IsFilled :
      (gaps : List Gap) (base_port : ℕ) (plans : List CommandPlan)
      → build_commands manifest concurrency gaps base_port ≡ ok plans
      → All (IsFilled plans) gaps
  build_commands-IsFilled gaps base_port plans h =
      All-Mem (IsFilled plans) gaps (gap-IsFilled gaps base_port plans h)
