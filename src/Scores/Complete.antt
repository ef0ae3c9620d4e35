-- ===== src/Scores/Complete.antt =====
-- When `score_release` of benchmark_scores.py calls a card complete.
use replaybook.Prelude.{
  ◌≡◌, ◌↔◌, ◌⊎◌, refl, sym, ap, ◌∙◌, subst, inl, inr, String, Bool, true, false, not, ◌&&◌, ◌||◌,
  Option, none, some, List, [], ◌∷◌, ◌++◌, map, filter, all, append_assoc, append-nil, All, All-imp,
  All-map, all_iff, arith, Bool-cases, Option-cases, some-injective, if◌then◌else◌,
}
use replaybook.Prelude.Int.{ℤ, pos, int_beq, int_eq}
use replaybook.Prelude.Eq.{
  ◌==◌, string_eq, option_eq, option_beq_iff, list_beq_iff, pair_eq, elem, Distinct,
}
use replaybook.Prelude.Dict.{
  lookup, dict_keys, lookup-alter, alter-Distinct, elem-dict_keys-alter, lookup-items, lookup-elem,
}
use replaybook.Prelude.Order.{sort, string_leb, All-sort}
use replaybook.Prelude.Result.{ok, >>=-eq-ok, raise_if-ok, ok-injective}
use replaybook.Json.Floats.{Floats}
use replaybook.Manifest.{BenchmarkManifest, BenchmarkScenario}
use replaybook.Scores.{
  AggregateRow, Compatibility, Release, Card, ScoreReport, LaneKey, Rows, Lanes, lane_key,
  scenario_key, scenario_entry_key, lane_eq, rows_of, rows_or_none, add_row, group_rows, lane_text,
  cell_of, is_complete, exact_contract_of, harness_versions_of, is_scored_tier, card_of,
  score_release,
}

-- The rows of a release that belong to a lane, in order, under their scenario and version.
abbrev pub lane_rows : LaneKey → List AggregateRow → Rows
lane_rows key rows = map (λ row. (scenario_key row, row)) (filter (λ row. lane_key row == key) rows)

or_assoc : (a b c : Bool) → ((a || b) || c) ≡ (a || (b || c))
or_assoc a b c = ground arith

default_rows : (o : Option Rows) → elim o [ none ↦ [] | some rows ↦ rows ] ≡ rows_or_none o
default_rows none = refl
default_rows (some rows) = refl

rows_of-add_row :
    (key lane : LaneKey) (row : AggregateRow) (groups : Lanes)
    → rows_of lane (add_row key row groups) ≡ (
        if key == lane
        then rows_of lane groups ++ (scenario_key row, row) ∷ []
        else rows_of lane groups)
unfolding rows_of add_row
rows_of-add_row key lane row groups =
    let f = λ (rows : Rows). rows ++ (scenario_key row, row) ∷ [] in
    let found = lookup-alter [] f key lane groups in
    elim (Bool-cases (key == lane)) [
      | inl same ↦
          let e : key ≡ lane = ((lane_eq).beq_iff key lane).0 same in
          rw (rows_of, add_row, found, same)
            (ap f (default_rows (lookup key groups) ∙ ap (λ k. rows_of k groups) e))
      | inr other ↦ rw (rows_of, add_row, found, other) refl
    ]

add_row-Distinct :
    (key : LaneKey) (row : AggregateRow) (groups : Lanes)
    → Distinct (dict_keys groups)
    → Distinct (dict_keys (add_row key row groups))
unfolding add_row
add_row-Distinct key row groups d =
    alter-Distinct [] (λ rows. rows ++ (scenario_key row, row) ∷ []) key groups d

-- A row in front of others goes to its lane.
add_rows :
    (lane : LaneKey) (row : AggregateRow) (rows : List AggregateRow) (groups : Lanes)
    → rows_of lane (add_row (lane_key row) row groups) ++ lane_rows lane rows
      ≡ rows_of lane groups ++ lane_rows lane (row ∷ rows)
add_rows lane row rows groups =
    let added = rows_of-add_row (lane_key row) lane row groups in
    elim (Bool-cases (lane_key row == lane)) [
      | inl same ↦
          rw (added, same)
            (append_assoc (rows_of lane groups) ((scenario_key row, row) ∷ [])
              (lane_rows lane rows))
      | inr other ↦ rw (added, other) refl
    ]

group_rows-rows :
    (rows : List AggregateRow) (groups more : Lanes)
    → Distinct (dict_keys groups)
    → group_rows rows groups ≡ ok more
    → ((lane : LaneKey) → rows_of lane more ≡ rows_of lane groups ++ lane_rows lane rows)
      × Distinct (dict_keys more)
unfolding group_rows
group_rows-rows [] groups more d h =
    subst
      (λ more.
        ((lane : LaneKey) → rows_of lane more ≡ rows_of lane groups ++ lane_rows lane [])
        × Distinct (dict_keys more))
      (ok-injective h) ((λ lane. sym (append-nil (rows_of lane groups))), d)
group_rows-rows (row ∷ rows) groups more d h =
    let key = lane_key row in
    let (_, h) = (raise_if-ok (elem (scenario_key row) (dict_keys (rows_of key groups))) _ _).0 h in
    let (found, distinct) =
      group_rows-rows rows (add_row key row groups) more (add_row-Distinct key row groups d) h in
    ((λ lane. found lane ∙ add_rows lane row rows groups), distinct)

-- The lanes that are grouped are those of the rows.
group_rows-keys :
    (lane : LaneKey) (rows : List AggregateRow) (groups more : Lanes)
    → group_rows rows groups ≡ ok more
    → elem lane (dict_keys more) ≡ (elem lane (dict_keys groups) || elem lane (map lane_key rows))
unfolding group_rows add_row
group_rows-keys lane [] groups more h =
    subst (λ more. elem lane (dict_keys more) ≡ (elem lane (dict_keys groups) || false))
      (ok-injective h) (ground arith)
group_rows-keys lane (row ∷ rows) groups more h =
    let key = lane_key row in
    let (_, h) = (raise_if-ok (elem (scenario_key row) (dict_keys (rows_of key groups))) _ _).0 h in
    let rest = group_rows-keys lane rows (add_row key row groups) more h in
    let added =
      elem-dict_keys-alter [] (λ rows. rows ++ (scenario_key row, row) ∷ []) key lane groups in
    rest ∙ rw added (or_assoc (elem lane (dict_keys groups)) (key == lane) _)

-- A row of the lane for the scenario, with all its trials recorded.
pub record IsRecorded (attempts : ℤ) (rows : Rows) (expected : BenchmarkScenario) : Type 0 where
  pub row : AggregateRow
  pub found : lookup (scenario_entry_key expected) rows ≡ some row
  pub recorded : int_beq (pos row.trials) attempts ≡ true

-- The harness version that a release was made with is the one that the benchmark requires: it is the
-- only one in the list of versions, or the single version where there is no list.
abbrev pub IsHarness : ℤ → Compatibility → Type 0
IsHarness required c =
    (c.harness_versions ≡ some (some required ∷ []))
    ⊎ ((c.harness_versions ≡ none) × (c.harness_version ≡ some required))

-- A release was made under the contract of a benchmark: the same manifest with the same version, the
-- same attempts and time limit, and the required harness.
pub record IsExact (c : Compatibility) (benchmark : BenchmarkManifest) : Type 0 where
  pub sha256 : c.manifest_sha256 ≡ some benchmark.sha256
  pub version : c.manifest_version ≡ some benchmark.version
  pub attempts : c.attempts ≡ benchmark.attempts
  pub timeout : c.agent_timeout_seconds ≡ benchmark.agent_timeout_seconds
  pub harness : IsHarness benchmark.required_host_harness_version c

-- The lane is complete: the release was made under the contract of the benchmark, each scenario of the
-- benchmark has its row with all trials, and no other scenario has one.
pub record IsCompleteLane (benchmark : BenchmarkManifest) (c : Compatibility) (rows : Rows)
    : Type 0 where
  pub exact : IsExact c benchmark
  pub recorded : All (IsRecorded benchmark.attempts rows) benchmark.scenarios
  pub declared :
      All (λ key. elem key (map scenario_entry_key benchmark.scenarios) ≡ true) (dict_keys rows)

cell-IsRecorded :
    (attempts : ℤ) (rows : Rows) (expected : BenchmarkScenario)
    → ((cell_of attempts rows expected).complete ≡ true) ↔ IsRecorded attempts rows expected
unfolding cell_of
cell-IsRecorded attempts rows expected =
    elim (Option-cases (lookup (scenario_entry_key expected) rows)) [
      | inl nothing ↦
          ((λ h. absurd (cc (rw (cell_of, nothing) at h))), (λ r. let found = r.found in absurd cc))
      | inr (row, found) ↦ (
        (λ h. record { row = row; found = found; recorded = rw (cell_of, found) at h }),
        (λ r.
            let other = r.found in
            let same : r.row ≡ row = cc in
            rw (cell_of, found)
              (subst (λ (x : AggregateRow). int_beq (pos x.trials) attempts ≡ true) same
                r.recorded)),
      )
    ]

cells-IsRecorded :
    (attempts : ℤ) (rows : Rows) (scenarios : List BenchmarkScenario)
    → (all (λ c. c.complete) (map (cell_of attempts rows) scenarios) ≡ true)
      ↔ All (IsRecorded attempts rows) scenarios
cells-IsRecorded attempts rows [] = ((λ h. tt), (λ h. refl))
cells-IsRecorded attempts rows (s ∷ scenarios) = (
  (λ h. (
    (cell-IsRecorded attempts rows s).0 (ground (arith, h)),
    (cells-IsRecorded attempts rows scenarios).0 (ground (arith, h)),
  )),
  (λ h.
      let first = (cell-IsRecorded attempts rows s).1 h.0 in
      let rest = (cells-IsRecorded attempts rows scenarios).1 h.1 in ground (arith, first, rest)),
)

recorded_keys :
    (attempts : ℤ) (rows : Rows) (scenarios : List BenchmarkScenario)
    → All (IsRecorded attempts rows) scenarios
    → All (λ key. elem key (dict_keys rows) ≡ true) (map scenario_entry_key scenarios)
recorded_keys attempts rows [] h = tt
recorded_keys attempts rows (s ∷ scenarios) h = (
  lookup-elem (scenario_entry_key s) h.0.row rows h.0.found,
  recorded_keys attempts rows scenarios h.1,
)

versions_iff :
    (required : ℤ) (versions : Option (List (Option ℤ))) (version : Option ℤ)
    → (elim versions [ none ↦ version ∷ [] | some all_versions ↦ all_versions ]
        ≡ some required ∷ [])
      ↔ ((versions ≡ some (some required ∷ [])) ⊎ ((versions ≡ none) × (version ≡ some required)))
versions_iff required none version =
    ((λ h. inr (refl, cc)), (λ k. elim k [ inl e ↦ absurd cc | inr e ↦ ap (λ v. v ∷ []) e.1 ]))
versions_iff required (some versions) version =
    ((λ h. inl (ap some h)), (λ k. elim k [ inl e ↦ some-injective e | inr e ↦ absurd (cc e.0) ]))

IsHarness-iff :
    (required : ℤ) (c : Compatibility)
    → (harness_versions_of c ≡ some required ∷ []) ↔ IsHarness required c
IsHarness-iff required c = versions_iff required c.harness_versions c.harness_version

conj5_iff :
    (a b c d e : Bool)
    → ((a && b && c && d && e) ≡ true)
      ↔ ((a ≡ true) × (b ≡ true) × (c ≡ true) × (d ≡ true) × (e ≡ true))
conj5_iff a b c d e = ((λ h. ground arith), (λ h. ground arith))

IsExact-iff :
    (c : Compatibility) (benchmark : BenchmarkManifest)
    → (exact_contract_of c benchmark ≡ true) ↔ IsExact c benchmark
unfolding exact_contract_of
IsExact-iff c benchmark =
    let sha256 = option_beq_iff c.manifest_sha256 (some benchmark.sha256) in
    let version = option_beq_iff c.manifest_version (some benchmark.version) in
    let attempts = (int_eq).beq_iff c.attempts benchmark.attempts in
    let timeout = (int_eq).beq_iff c.agent_timeout_seconds benchmark.agent_timeout_seconds in
    let required = benchmark.required_host_harness_version in
    let versions = list_beq_iff (harness_versions_of c) (some required ∷ []) in
    let harness = IsHarness-iff required c in
    (
      (λ h.
          let (s, v, a, t, k) = (conj5_iff _ _ _ _ _).0 h in
          record {
            sha256 = sha256.0 s;
            version = version.0 v;
            attempts = attempts.0 a;
            timeout = timeout.0 t;
            harness = harness.0 (versions.0 k);
          }),
      (λ x. (conj5_iff _ _ _ _ _).1 (
        sha256.1 x.sha256,
        version.1 x.version,
        attempts.1 x.attempts,
        timeout.1 x.timeout,
        versions.1 (harness.1 x.harness),
      )),
    )

lane_iff :
    (benchmark : BenchmarkManifest) (c : Compatibility) (rows : Rows)
    → (is_complete benchmark
          (exact_contract_of c benchmark)
          rows
          (map (cell_of benchmark.attempts rows) benchmark.scenarios)
        ≡ true)
      ↔ IsCompleteLane benchmark c rows
unfolding is_complete
lane_iff benchmark c rows =
    let contract = IsExact-iff c benchmark in
    let keys = dict_keys rows in
    let expected = map scenario_entry_key benchmark.scenarios in
    let cells = cells-IsRecorded benchmark.attempts rows benchmark.scenarios in
    (
      (λ h. record {
        exact = contract.0 (ground (arith, h));
        recorded = cells.0 (ground (arith, h));
        declared = (all_iff (λ k. elem k expected) keys).0 (ground (arith, h));
      }),
      (λ l.
          let exact = contract.1 l.exact in
          let there = (all_iff (λ k. elem k expected) keys).1 l.declared in
          let back =
            (all_iff (λ k. elem k keys) expected).1
              (recorded_keys benchmark.attempts rows benchmark.scenarios l.recorded) in
          let complete = cells.1 l.recorded in ground (arith, exact, there, back, complete)),
    )

-- A card of a release: that of a lane of one of its rows, with all rows of the lane, which is called
-- complete exactly where the lane is complete.
pub record IsCard {F : Type 0} ⦃fl : Floats F⦄ (label : String → String) (release : Release)
    (benchmark : BenchmarkManifest) (card : Card F) : Type 0 where
  pub lane : LaneKey
  pub inhabited : elem lane (map lane_key release.by_scenario_model) ≡ true
  pub card_of_lane :
      card
      ≡ card_of label benchmark
          (exact_contract_of release.compatibility benchmark)
          (lane, lane_rows lane release.by_scenario_model)
  pub complete :
      ((card.status == "complete") ≡ true)
      ↔ IsCompleteLane benchmark release.compatibility (lane_rows lane release.by_scenario_model)

status_iff :
    (b : Bool) (status : String)
    → status ≡ (if b then "complete" else "provisional")
    → (status == "complete") ≡ b
status_iff true status h = rw h refl
status_iff false status h = rw h refl

rows_of-found :
    (lane : LaneKey) (rows : Rows) (groups : Lanes)
    → lookup lane groups ≡ some rows
    → rows_of lane groups ≡ rows
unfolding rows_of
rows_of-found lane rows groups h = ap rows_or_none h

rows_of-none : (lane : LaneKey) → rows_of lane [] ≡ []
unfolding rows_of lookup
rows_of-none lane = refl

module _ (F : Type 0) ⦃fl : Floats F⦄ (label : String → String) where
  status-Complete :
      (benchmark : BenchmarkManifest) (c : Compatibility) (lane : LaneKey) (rows : Rows)
      → (((card_of {F = F} label benchmark (exact_contract_of c benchmark) (lane, rows)).status
            == "complete")
          ≡ true)
        ↔ IsCompleteLane benchmark c rows
  unfolding card_of
  status-Complete benchmark c lane rows =
      let contract = exact_contract_of c benchmark in
      let cells = map (cell_of benchmark.attempts rows) benchmark.scenarios in
      let status = status_iff (is_complete benchmark contract rows cells) _ refl in
      let (there, back) = lane_iff benchmark c rows in
      ((λ h. there (sym status ∙ h)), (λ l. status ∙ back l))

  group-IsCard :
      (release : Release) (benchmark : BenchmarkManifest) (groups : Lanes)
      → group_rows release.by_scenario_model [] ≡ ok groups
      → All
          (λ g.
            IsCard label release benchmark (
              card_of {F = F} label benchmark
                (exact_contract_of release.compatibility benchmark)
                g))
          groups
  group-IsCard release benchmark groups h =
      let (rows, distinct) = group_rows-rows release.by_scenario_model [] groups tt h in
      All-imp (λ g. lookup g.0 groups ≡ some g.1) _
        (λ g found.
          let contract = exact_contract_of release.compatibility benchmark in
          let own : g.1 ≡ lane_rows g.0 release.by_scenario_model =
            sym (rows_of-found g.0 g.1 groups found)
            ∙ rows g.0
            ∙ ap (λ l. l ++ lane_rows g.0 release.by_scenario_model) (rows_of-none g.0) in
          record {
            lane = g.0;
            inhabited =
                sym (group_rows-keys g.0 release.by_scenario_model [] groups h)
                ∙ lookup-elem g.0 g.1 groups found;
            card_of_lane = ap (λ rows. card_of label benchmark contract (g.0, rows)) own;
            complete =
                subst
                  (λ rows.
                    (((card_of {F = F} label benchmark contract (g.0, g.1)).status == "complete")
                      ≡ true)
                    ↔ IsCompleteLane benchmark release.compatibility rows)
                  own (status-Complete benchmark release.compatibility g.0 g.1);
          })
        groups (lookup-items groups distinct)

  -- Each card of a report is that of the lane of a row of the release, with all rows of the lane, and is
  -- called complete exactly where the release was made under the contract of the benchmark (the same
  -- manifest and version, attempts and time limit, and the required harness version alone), each
  -- scenario has a row of the lane with all trials recorded, and the lane has no row of another
  -- scenario.
  pub score_release-IsCard :
      {H : Type 0} (harness : H) (release : Release) (benchmark : BenchmarkManifest)
      (report : ScoreReport F H)
      → score_release label harness release benchmark ≡ ok report
      → All (IsCard label release benchmark) report.cards
  unfolding score_release
  score_release-IsCard harness release benchmark report h =
      let c = release.compatibility in
      let (_, h) =
        (raise_if-ok
            (not (is_scored_tier benchmark.tier) || not (c.manifest_tier == benchmark.tier)) _ _).0
          h in
      let (_, h) = (raise_if-ok (not (c.manifest_id == some benchmark.id)) _ _).0 h in
      let (groups, e, h) = >>=-eq-ok (group_rows release.by_scenario_model []) _ h in
      let card = card_of {F = F} label benchmark (exact_contract_of c benchmark) in
      let le = λ (a b : LaneKey × Rows). string_leb (lane_text a.0) (lane_text b.0) in
      subst (λ (r : ScoreReport F _). All (IsCard label release benchmark) r.cards) (ok-injective h)
        (All-map (IsCard label release benchmark) card (sort le groups) (
          All-sort le (λ g. IsCard label release benchmark (card g)) groups
            (group-IsCard release benchmark groups e)))
