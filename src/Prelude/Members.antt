-- ===== src/Prelude/Members.antt =====
-- Membership in a list, and how the steps that build lists keep it.
use mathlib.Core.Path.{◌≡◌, refl, sym, ap}
use mathlib.Core.Bool.{Bool, true}
use mathlib.Core.Logic.{inl, inr}
use mathlib.Core.List.{List, [], ◌∷◌, ◌++◌, map, Memᴰ}
use mathlib.Core.List.Memᴰ
use native.Mathlib.Omega.{arith}
use replaybook.Prelude.Tests.{Bool-cases}
use replaybook.Prelude.Lists.{All}
use replaybook.Prelude.Eq.{Eq, ◌==◌, elem}
use replaybook.Prelude.Dict.{Dict, alter}
use replaybook.Prelude.Groups.{group_into}
use replaybook.Prelude.Order.{insert, sort}
use replaybook.Prelude.Result.{Result, ok, map_result, >>=-eq-ok, ok-injective}
use mathlib.Core.Path.{subst}

module _ {ℓ} {A : Type ℓ} where
  Mem-insert_self : (le : A → A → Bool) (a : A) (xs : List A) → Memᴰ a (insert le a xs)
  unfolding insert
  Mem-insert_self le a [] = Memᴰ.head refl
  Mem-insert_self le a (x ∷ xs) = elim (Bool-cases (le a x)) [
    | inl good ↦ rw good (Memᴰ.head refl)
    | inr bad ↦ rw bad (Memᴰ.tail (Mem-insert_self le a xs))
  ]

  Mem-insert : (le : A → A → Bool) (a b : A) (xs : List A) → Memᴰ b xs → Memᴰ b (insert le a xs)
  unfolding insert
  Mem-insert le a b [] m = elim m [ ]
  Mem-insert le a b (x ∷ xs) m = elim (Bool-cases (le a x)) [
    | inl good ↦ rw good (Memᴰ.tail m)
    | inr bad ↦
        rw bad
          (elim m [ Memᴰ.head e ↦ Memᴰ.head e | Memᴰ.tail n ↦ Memᴰ.tail (Mem-insert le a b xs n) ])
  ]

  pub Mem-sort : (le : A → A → Bool) (a : A) (xs : List A) → Memᴰ a xs → Memᴰ a (sort le xs)
  unfolding sort
  Mem-sort le a [] m = elim m [ ]
  Mem-sort le a (x ∷ xs) (Memᴰ.head e) = rw e (Mem-insert_self le x (sort le xs))
  Mem-sort le a (x ∷ xs) (Memᴰ.tail m) = Mem-insert le x a (sort le xs) (Mem-sort le a xs m)

module _ {ℓ} {A : Type ℓ} ⦃e : Eq A⦄ where
  pub elem-Mem : (a : A) {xs : List A} → Memᴰ a xs → elem a xs ≡ true
  elem-Mem a {xs = []} m = elim m [ ]
  elem-Mem a {xs = x ∷ xs} (Memᴰ.head h) = ground (arith, e.beq_iff x a, sym h)
  elem-Mem a {xs = x ∷ xs} (Memᴰ.tail m) = ground (arith, elem-Mem a m)

  pub Mem-elem : (a : A) (xs : List A) → elem a xs ≡ true → Memᴰ a xs
  Mem-elem a [] h = absurd cc
  Mem-elem a (x ∷ xs) h = elim (Bool-cases (x == a)) [
    | inl same ↦ Memᴰ.head (sym ((e.beq_iff x a).0 same))
    | inr other ↦ Memᴰ.tail (Mem-elem a xs (rw other at h))
  ]

module _ {ℓ κ} {A : Type ℓ} (P : A → Type κ) where
  pub All-Mem : (xs : List A) → ((x : A) → Memᴰ x xs → P x) → All P xs
  All-Mem [] h = tt
  All-Mem (x ∷ xs) h = (h x (Memᴰ.head refl), All-Mem xs (λ y m. h y (Memᴰ.tail m)))

module _ {ℓ κ} {A : Type ℓ} {B : Type κ} where
  pub Mem-map : (f : A → B) {a : A} {xs : List A} → Memᴰ a xs → Memᴰ (f a) (map f xs)
  Mem-map f (Memᴰ.head e) = Memᴰ.head (ap f e)
  Mem-map f (Memᴰ.tail m) = Memᴰ.tail (Mem-map f m)

  -- What an item of the first list is mapped to stands in the second.
  pub Mem-map_result :
      (f : A → Result B) {a : A} {xs : List A} (ys : List B)
      → Memᴰ a xs
      → map_result f xs ≡ ok ys
      → (b : B) × (f a ≡ ok b) × Memᴰ b ys
  Mem-map_result f {a} {xs = []} ys m h = elim m [ ]
  Mem-map_result f {a} {xs = x ∷ xs} ys (Memᴰ.head e) h =
      let (b, fb, h₁) = >>=-eq-ok (f x) _ h in
      let (rest, k, h₂) = >>=-eq-ok (map_result f xs) _ h₁ in
      (b, rw e fb, subst (Memᴰ b) (ok-injective h₂) (Memᴰ.head refl))
  Mem-map_result f {a} {xs = x ∷ xs} ys (Memᴰ.tail m) h =
      let (c, fc, h₁) = >>=-eq-ok (f x) _ h in
      let (rest, k, h₂) = >>=-eq-ok (map_result f xs) _ h₁ in
      let (b, fb, n) = Mem-map_result f rest m k in
      (b, fb, subst (Memᴰ b) (ok-injective h₂) (Memᴰ.tail n))

module _ {ℓ κ} {K : Type ℓ} {A : Type κ} ⦃e : Eq K⦄ where
  -- A group that a list of groups has under a key, with an item.
  abbrev pub InGroup : K → A → Dict K (List A) → Type (ℓ ⊔ κ)
  InGroup k x groups = (xs : List A) × Memᴰ (k, xs) groups × Memᴰ x xs

  InGroup-alter_self :
      (k : K) (x : A) (groups : Dict K (List A))
      → InGroup k x (alter [] (λ g. g ++ x ∷ []) k groups)
  unfolding alter
  InGroup-alter_self k x [] = (x ∷ [], Memᴰ.head refl, Memᴰ.head refl)
  InGroup-alter_self k x ((j, xs) ∷ groups) = elim (Bool-cases (j == k)) [
    | inl same ↦
        let e' = (e.beq_iff j k).0 same in
        rw same (
          xs ++ x ∷ [],
          Memᴰ.head (ap (λ i. (i, xs ++ x ∷ [])) (sym e')),
          Memᴰ.append_right xs (Memᴰ.head refl),
        )
    | inr other ↦ let (ys, m, n) = InGroup-alter_self k x groups in rw other (ys, Memᴰ.tail m, n)
  ]

  InGroup-alter :
      (k j : K) (x y : A) (groups : Dict K (List A))
      → InGroup k x groups
      → InGroup k x (alter [] (λ g. g ++ y ∷ []) j groups)
  unfolding alter
  InGroup-alter k j x y [] (xs, m, n) = elim m [ ]
  InGroup-alter k j x y ((i, zs) ∷ groups) (xs, Memᴰ.head h, n) = elim (Bool-cases (i == j)) [
    | inl same ↦ rw same (
      xs ++ y ∷ [],
      Memᴰ.head (ap (λ (g : K × List A). (g.0, g.1 ++ y ∷ [])) h),
      Memᴰ.append_left (y ∷ []) n,
    )
    | inr other ↦ rw other (xs, Memᴰ.head h, n)
  ]
  InGroup-alter k j x y ((i, zs) ∷ groups) (xs, Memᴰ.tail m, n) = elim (Bool-cases (i == j)) [
    | inl same ↦ rw same (xs, Memᴰ.tail m, n)
    | inr other ↦
        let (ys, p, q) = InGroup-alter k j x y groups (xs, m, n) in rw other (ys, Memᴰ.tail p, q)
  ]

  InGroup-later :
      (key : A → K) (k : K) (x : A) (xs : List A) (groups : Dict K (List A))
      → InGroup k x groups
      → InGroup k x (group_into key xs groups)
  unfolding group_into
  InGroup-later key k x [] groups h = h
  InGroup-later key k x (y ∷ ys) groups h =
      InGroup-later key k x ys (alter [] (λ g. g ++ y ∷ []) (key y) groups)
        (InGroup-alter k (key y) x y groups h)

  -- Grouping puts each item in the group of its key.
  pub InGroup-group_into :
      (key : A → K) (x : A) {xs : List A} (groups : Dict K (List A))
      → Memᴰ x xs
      → InGroup (key x) x (group_into key xs groups)
  unfolding group_into
  InGroup-group_into key x {xs = []} groups m = elim m [ ]
  InGroup-group_into key x {xs = y ∷ ys} groups (Memᴰ.head e') =
      rw e' (InGroup-later key (key y) y ys _ (InGroup-alter_self (key y) y groups))
  InGroup-group_into key x {xs = y ∷ ys} groups (Memᴰ.tail m) =
      InGroup-group_into key x (alter [] (λ g. g ++ y ∷ []) (key y) groups) m
