-- ===== src/Prelude/Groups.antt =====
-- Items collected under their keys, as with a `defaultdict(list)`.
use Prim.Native.Nat.{ℕ, ◌+◌}
use mathlib.Core.Path.{◌≡◌}
use mathlib.Core.Bool.{Bool}
use mathlib.Core.List.{List, [], ◌∷◌, ◌++◌, map}
use native.Mathlib.Omega.{arith}
use replaybook.Prelude.Tests.{if◌then◌else◌}
use replaybook.Prelude.Lists.{sum, count_if, count_if-append}
use replaybook.Prelude.Eq.{Eq}
use replaybook.Prelude.Dict.{Dict, alter}

module _ {ℓ κ} {K : Type ℓ} {A : Type κ} ⦃e : Eq K⦄ where
  -- `groups[key(x)].append(x)` for each `x`.
  unfoldable pub group_into : (A → K) → List A → Dict K (List A) → Dict K (List A)
  unfolding alter
  group_into key [] groups = groups
  group_into key (x ∷ xs) groups =
      group_into key xs (alter [] (λ group. group ++ x ∷ []) (key x) groups)

  -- How many items of all groups pass a test.
  abbrev pub count_groups : (A → Bool) → Dict K (List A) → ℕ
  count_groups p groups = sum (map (λ g. count_if p g.1) groups)

  count_groups-alter :
      (p : A → Bool) (x : A) (k : K) (groups : Dict K (List A))
      → count_groups p (alter [] (λ group. group ++ x ∷ []) k groups)
        ≡ count_groups p groups + (if p x then 1 else 0)
  unfolding alter
  count_groups-alter p x k [] = omega arith
  count_groups-alter p x k ((j, group) ∷ groups) =
      ground (arith, count_if-append p group (x ∷ []), count_groups-alter p x k groups)

  -- Grouping loses no item and repeats none: each test counts the same over the groups.
  pub count_groups-group_into :
      (p : A → Bool) (key : A → K) (xs : List A) (groups : Dict K (List A))
      → count_groups p (group_into key xs groups) ≡ count_groups p groups + count_if p xs
  unfolding group_into
  count_groups-group_into p key [] groups = omega arith
  count_groups-group_into p key (x ∷ xs) groups = omega (
    arith,
    count_groups-alter p x (key x) groups,
    count_groups-group_into p key xs (alter [] (λ group. group ++ x ∷ []) (key x) groups),
  )
