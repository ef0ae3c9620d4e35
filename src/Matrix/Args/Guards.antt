-- ===== src/Matrix/Args/Guards.antt =====
-- When the guards of run_host_matrix.py on its arguments let them pass.
use replaybook.Prelude.{
  ◌≡◌, ◌↔◌, refl, inl, inr, String, Bool, true, false, not, ◌||◌, Option, none, some, List, [], ◌∷◌,
  is_nil, filter, length, All, arith, Bool-cases, some-injective,
}
use replaybook.Prelude.Int.{ℤ, is_positive}
use replaybook.Prelude.Eq.{string_eq, elem, unique, elem-unique, eq_self}
use replaybook.Prelude.Text.{◌<>◌}
use replaybook.Prelude.Order.{join, string_leb, length-sort}
use replaybook.Prelude.Result.{raise_if-ok, Result, ok, ◌>>◌}
use replaybook.Matrix.Args.{
  is_scenario_id, require_positive, sorted_difference, require_subset, check_scenarios,
}

pub not-false : (b : Bool) → not b ≡ false → b ≡ true
not-false b h = ground arith

pub check_scenarios-ok :
    (available scenarios : List String)
    → (check_scenarios available scenarios ≡ ok tt)
      ↔ All (λ s. (is_scenario_id s ≡ true) × (elem s available ≡ true)) scenarios
unfolding check_scenarios
check_scenarios-ok available [] = ((λ h. tt), (λ h. refl))
check_scenarios-ok available (s ∷ scenarios) =
    let rest = check_scenarios-ok available scenarios in
    let this =
      raise_if-ok (not (is_scenario_id s) || not (elem s available))
        ("unknown host-native scenario: " <> s) (check_scenarios available scenarios) in
    (
      (λ h. let (e, k) = this.0 h in ((ground arith, ground arith), rest.0 k)),
      (λ h. this.1 (ground (arith, h.0), rest.1 h.1)),
    )

filter-is_nil :
    (ys xs : List String)
    → (is_nil (filter (λ x. not (elem x ys)) xs) ≡ true) ↔ All (λ x. elem x ys ≡ true) xs
filter-is_nil ys [] = ((λ h. tt), (λ h. refl))
filter-is_nil ys (x ∷ xs) =
    let rest = filter-is_nil ys xs in
    elim (Bool-cases (elem x ys)) [
      | inl e ↦ rw e ((λ h. (refl, rest.0 h)), (λ h. rest.1 h.1))
      | inr e ↦ rw e ((λ h. absurd cc), (λ h. absurd (cc (h.0))))
    ]

is_nil-length : (xs ys : List String) → length xs ≡ length ys → is_nil xs ≡ is_nil ys
is_nil-length [] [] h = refl
is_nil-length [] (y ∷ ys) h = absurd (omega arith)
is_nil-length (x ∷ xs) [] h = absurd (omega arith)
is_nil-length (x ∷ xs) (y ∷ ys) h = refl

elem-is_nil : (x : String) (xs : List String) → elem x xs ≡ true → is_nil xs ≡ false
elem-is_nil x [] h = cc
elem-is_nil x (y ∷ ys) h = refl

unique-is_nil : (xs : List String) → is_nil (unique xs) ≡ is_nil xs
unfolding unique
unique-is_nil [] = refl
unique-is_nil (x ∷ xs) =
    elem-is_nil x (unique (x ∷ xs)) (rw (elem-unique x (x ∷ xs), eq_self x) refl)

pub sorted_difference-is_nil :
    (xs ys : List String)
    → (is_nil (sorted_difference xs ys) ≡ true) ↔ All (λ x. elem x ys ≡ true) xs
sorted_difference-is_nil xs ys =
    rw
      (
        is_nil-length (sorted_difference xs ys) (unique (filter (λ x. not (elem x ys)) xs))
            (length-sort string_leb (unique (filter (λ x. not (elem x ys)) xs))),
        unique-is_nil (filter (λ x. not (elem x ys)) xs),
      )
      (filter-is_nil ys xs)

pub require_subset-ok {ℓ} :
    {B : Type ℓ} {b : B} (xs ys : List String) (text : String) (k : Result B)
    → ((require_subset xs ys text >> k) ≡ ok b) ↔ (All (λ x. elem x ys ≡ true) xs × (k ≡ ok b))
require_subset-ok xs ys text k =
    let none_left = sorted_difference-is_nil xs ys in
    let step =
      raise_if-ok (not (is_nil (sorted_difference xs ys))) (text <> join (sorted_difference xs ys))
        k in
    (
      (λ h. let (e, r) = step.0 h in (none_left.0 (ground arith), r)),
      (λ h. step.1 (ground (arith, none_left.1 h.0), h.1)),
    )

pub require_positive-ok {ℓ} :
    {B : Type ℓ} {b : B} (value : Option ℤ) (text : String) (k : Result B)
    → ((require_positive value text >> k) ≡ ok b)
      ↔ (((z : ℤ) × (value ≡ some z) × (is_positive z ≡ true)) × (k ≡ ok b))
require_positive-ok none text k = ((λ h. absurd cc), (λ h. let (z, e, _) = h.0 in absurd (cc (e))))
require_positive-ok (some z) text k =
    let step = raise_if-ok (not (is_positive z)) text k in
    (
      (λ h. let (e, r) = step.0 h in ((z, refl, ground arith), r)),
      (λ h. let (y, e, p) = h.0 in step.1 (ground (arith, some-injective e), h.1)),
    )
