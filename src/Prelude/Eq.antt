-- ===== src/Prelude/Eq.antt =====
-- Python's `==` on the values that the programs compare, as an interface, and what is built on it:
-- membership, removal of duplicates and the test that a list has none.
use Prim.Native.Nat.{ℕ, ◌≤◌}
use Prim.Native.String.{String}
use mathlib.Core.Path.{◌≡◌, refl, ap, sym}
use mathlib.Core.Logic.{◌↔◌, inl, inr}
use mathlib.Core.Bool.{Bool, true, false, not, ◌&&◌, ◌||◌}
use mathlib.Core.Option.{Option, none, some}
use mathlib.Core.List.{List, [], ◌∷◌, ◌++◌}
use native.Mathlib.Omega.{arith}
use text.Mathlib.Text.{◌==◌ as str_eq}
use text.Mathlib.TextEquality.{eq_iff}
use replaybook.Prelude.Tests.{nat_beq, if◌then◌else◌, Bool-cases}
use replaybook.Prelude.Lists.{length, filter}

pub record Eq {ℓ} (A : Type ℓ) : Type ℓ where
  pub beq : A → A → Bool
  pub beq_iff : (x y : A) → (beq x y ≡ true) ↔ (x ≡ y)

abbrev pub ◌==◌ {ℓ} : {K : Type ℓ} ⦃eq : Eq K⦄ → K → K → Bool
◌==◌ ⦃eq⦄ = eq.beq

infix 50 ◌==◌
pub nat_beq_iff : (a b : ℕ) → (nat_beq a b ≡ true) ↔ (a ≡ b)
nat_beq_iff a b = ground arith

instance abbrev pub nat_eq : Eq ℕ
nat_eq = record { beq_iff = nat_beq_iff; beq = nat_beq }

instance abbrev pub string_eq : Eq String
string_eq = record { beq_iff = eq_iff; beq = str_eq }

module _ {ℓ} {A : Type ℓ} ⦃e : Eq A⦄ where
  abbrev pub option_beq : Option A → Option A → Bool
  option_beq none none = true
  option_beq (some a) (some b) = a == b
  option_beq _ _ = false

  pub option_beq_iff : (a b : Option A) → (option_beq a b ≡ true) ↔ (a ≡ b)
  option_beq_iff none none = ((λ _. refl), (λ _. refl))
  option_beq_iff none (some b) = ((λ h. cc), (λ h. cc))
  option_beq_iff (some a) none = ((λ h. cc), (λ h. cc))
  option_beq_iff (some a) (some b) =
      ((λ h. ap some ((e.beq_iff a b).0 h)), (λ h. (e.beq_iff a b).1 (cc)))

  instance abbrev pub option_eq : Eq (Option A)
  option_eq = record { beq = option_beq; beq_iff = option_beq_iff }

  abbrev pub list_beq : List A → List A → Bool
  list_beq [] [] = true
  list_beq (a ∷ as') (b ∷ bs) = a == b && list_beq as' bs
  list_beq _ _ = false

  pub list_beq_iff : (a b : List A) → (list_beq a b ≡ true) ↔ (a ≡ b)
  list_beq_iff [] [] = ((λ _. refl), (λ _. refl))
  list_beq_iff [] (b ∷ bs) = ((λ h. cc), (λ h. cc))
  list_beq_iff (a ∷ as') [] = ((λ h. cc), (λ h. cc))
  list_beq_iff (a ∷ as') (b ∷ bs) = (
    (λ h. ground (arith, e.beq_iff a b, list_beq_iff as' bs)),
    (λ h. ground (arith, e.beq_iff a b, list_beq_iff as' bs)),
  )

  instance abbrev pub list_eq : Eq (List A)
  list_eq = record { beq = list_beq; beq_iff = list_beq_iff }

module _ {ℓ κ} {A : Type ℓ} {B : Type κ} ⦃d : Eq A⦄ ⦃e : Eq B⦄ where
  abbrev pub pair_beq : A × B → A × B → Bool
  pair_beq (a, b) (a', b') = a == a' && b == b'

  pub pair_beq_iff : (p q : A × B) → (pair_beq p q ≡ true) ↔ (p ≡ q)
  pair_beq_iff (a, b) (a', b') = (
    (λ h. ground (arith, d.beq_iff a a', e.beq_iff b b')),
    (λ h. ground (arith, d.beq_iff a a', e.beq_iff b b')),
  )

  instance abbrev pub pair_eq : Eq (A × B)
  pair_eq = record { beq = pair_beq; beq_iff = pair_beq_iff }

module _ {ℓ} {A : Type ℓ} ⦃e : Eq A⦄ where
  pub eq_self : (a : A) → (a == a) ≡ true
  eq_self a = (e.beq_iff a a).1 refl

  -- `a in xs`
  abbrev pub elem : A → List A → Bool
  elem a [] = false
  elem a (x ∷ xs) = x == a || elem a xs

  -- The items of `xs` that are not `a`.
  abbrev pub without : A → List A → List A
  without a xs = filter (λ x. not (x == a)) xs

  -- No item stands twice.
  abbrev pub Distinct : List A → Type 0
  Distinct [] = Unit
  Distinct (x ∷ xs) = (elem x xs ≡ false) × Distinct xs

  -- `list(dict.fromkeys(xs))` behind the items `seen` so far: first occurrences, in order.
  unfoldable pub unique_from : List A → List A → List A
  unique_from seen [] = []
  unique_from seen (x ∷ xs) =
      let rest = unique_from (x ∷ seen) xs in
      let skip = unique_from seen xs in if elem x seen then skip else x ∷ rest

  unfoldable pub unique : List A → List A
  unfolding unique_from
  unique xs = unique_from [] xs

  elem-unique_from :
      (a : A) (seen xs : List A) → elem a (unique_from seen xs) ≡ (elem a xs && not (elem a seen))
  unfolding unique_from
  elem-unique_from a seen [] = refl
  elem-unique_from a seen (x ∷ xs) =
      ground (arith, e.beq_iff x a, elem-unique_from a seen xs, elem-unique_from a (x ∷ seen) xs)

  unique_from-Distinct : (seen xs : List A) → Distinct (unique_from seen xs)
  unfolding unique_from
  unique_from-Distinct seen [] = tt
  unique_from-Distinct seen (x ∷ xs) = elim (Bool-cases (elem x seen)) [
    | inl old ↦ rw old (unique_from-Distinct seen xs)
    | inr new ↦ rw new (
      ground (arith, elem-unique_from x (x ∷ seen) xs, eq_self x),
      unique_from-Distinct (x ∷ seen) xs,
    )
  ]

  length-unique_from-le : (seen xs : List A) → length (unique_from seen xs) ≤ length xs
  unfolding unique_from
  length-unique_from-le seen [] = omega arith
  length-unique_from-le seen (x ∷ xs) =
      ground (arith, length-unique_from-le seen xs, length-unique_from-le (x ∷ seen) xs)

  -- A list keeps its length exactly when nothing in it repeats or was seen.
  length-unique_from-Distinct :
      (seen xs : List A)
      → length (unique_from seen xs) ≡ length xs
      → Distinct xs × ((a : A) → elem a xs ≡ true → elem a seen ≡ false)
  unfolding unique_from
  length-unique_from-Distinct seen [] h = (tt, λ a k. cc)
  length-unique_from-Distinct seen (x ∷ xs) h = elim (Bool-cases (elem x seen)) [
    | inl old ↦ absurd (ground (arith, length-unique_from-le seen xs))
    | inr new ↦
        let (distinct, fresh) = length-unique_from-Distinct (x ∷ seen) xs (ground arith) in
        (
          (ground (arith, fresh x, eq_self x), distinct),
          (λ a k. ground (arith, fresh a, e.beq_iff x a)),
        )
  ]

  unique_from-eq :
      (seen xs : List A)
      → Distinct xs
      → ((a : A) → elem a xs ≡ true → elem a seen ≡ false)
      → unique_from seen xs ≡ xs
  unfolding unique_from
  unique_from-eq seen [] d fresh = refl
  unique_from-eq seen (x ∷ xs) d fresh =
      let new : elem x seen ≡ false = fresh x (ground (arith, eq_self x)) in
      let rest : unique_from (x ∷ seen) xs ≡ xs =
        unique_from-eq (x ∷ seen) xs d.1 (λ a k. ground (arith, fresh a, e.beq_iff x a)) in
      rw (new, rest)

  -- `len(xs) == len(set(xs))` says that no item repeats.
  pub length-unique_iff : (xs : List A) → (length xs ≡ length (unique xs)) ↔ Distinct xs
  unfolding unique
  length-unique_iff xs = (
    (λ h. (length-unique_from-Distinct [] xs (sym h)).0),
    (λ d. ap length (sym (unique_from-eq [] xs d (λ a k. refl)))),
  )

  pub elem-unique : (a : A) (xs : List A) → elem a (unique xs) ≡ elem a xs
  unfolding unique
  elem-unique a xs = ground (arith, elem-unique_from a [] xs)

  pub unique-Distinct : (xs : List A) → Distinct (unique xs)
  unfolding unique
  unique-Distinct xs = unique_from-Distinct [] xs

module _ {ℓ} {A : Type ℓ} ⦃e : Eq A⦄ where
  pub elem-append : (a : A) (xs ys : List A) → elem a (xs ++ ys) ≡ (elem a xs || elem a ys)
  elem-append a [] ys = refl
  elem-append a (x ∷ xs) ys = ground (arith, elem-append a xs ys)

  -- Two parts of a list without repetition share no item.
  pub Distinct-append :
      (a : A) (xs ys : List A) → Distinct (xs ++ ys) → elem a xs ≡ true → elem a ys ≡ false
  Distinct-append a [] ys d h = cc
  Distinct-append a (x ∷ xs) ys d h =
      ground (arith, e.beq_iff x a, elem-append x xs ys, d.0, Distinct-append a xs ys d.1)

  -- A new item at the end keeps a list without repetition.
  pub Distinct-snoc :
      (a : A) (xs : List A) → Distinct xs → elem a xs ≡ false → Distinct (xs ++ a ∷ [])
  Distinct-snoc a [] d h = (refl, tt)
  Distinct-snoc a (x ∷ xs) d h = (
    ground (arith, h, d.0, elem-append x xs (a ∷ []), e.beq_iff a x, e.beq_iff x a),
    Distinct-snoc a xs d.1 (ground (arith, h)),
  )
