-- ===== src/Prelude/Interleave.antt =====
-- A list split into two parts, each in the order of the list.
use mathlib.Core.Path.{◌≡◌, refl}
use mathlib.Core.Bool.{false}
use mathlib.Core.List.{List, [], ◌∷◌, ◌++◌, map, Perm, perm_middle}
use mathlib.Core.List.Perm
use Prim.Native.Nat.{◌+◌}
use native.Mathlib.Omega.{arith}
use replaybook.Prelude.Lists.{length, All, All-imp, All-imp2}
use replaybook.Prelude.Eq.{Eq, ◌==◌, elem, Distinct}

module _ {ℓ} {A : Type ℓ} where
  -- Every item of the third list stands in exactly one of the other two, and nothing else does.
  pub data Interleave : List A → List A → List A → Type ℓ where
    done : Interleave [] [] []
    left : {xs ys zs : List A} (a : A) → Interleave xs ys zs → Interleave (a ∷ xs) ys (a ∷ zs)
    right : {xs ys zs : List A} (a : A) → Interleave xs ys zs → Interleave xs (a ∷ ys) (a ∷ zs)

  pub snoc_left :
      {xs ys zs : List A} (a : A)
      → Interleave xs ys zs
      → Interleave (xs ++ a ∷ []) ys (zs ++ a ∷ [])
  snoc_left a done = left a done
  snoc_left a (left b h) = left b (snoc_left a h)
  snoc_left a (right b h) = right b (snoc_left a h)

  pub snoc_right :
      {xs ys zs : List A} (a : A)
      → Interleave xs ys zs
      → Interleave xs (ys ++ a ∷ []) (zs ++ a ∷ [])
  snoc_right a done = right a done
  snoc_right a (left b h) = left b (snoc_right a h)
  snoc_right a (right b h) = right b (snoc_right a h)

  pub Interleave-length :
      {xs ys zs : List A} → Interleave xs ys zs → length xs + length ys ≡ length zs
  Interleave-length done = refl
  Interleave-length (left a h) = omega (arith, Interleave-length h)
  Interleave-length (right a h) = omega (arith, Interleave-length h)

  pub Interleave-perm : {xs ys zs : List A} → Interleave xs ys zs → Perm (xs ++ ys) zs
  Interleave-perm done = Perm.rfl
  Interleave-perm (left a h) = Perm.cons a (Interleave-perm h)
  Interleave-perm (right {xs} {ys} a h) =
      Perm.trans (perm_middle xs ys) (Perm.cons a (Interleave-perm h))

module _ {ℓ κ} {A : Type ℓ} (P : A → Type κ) where
  pub Interleave-All-left : {xs ys zs : List A} → Interleave xs ys zs → All P zs → All P xs
  Interleave-All-left done h = tt
  Interleave-All-left (left a i) h = (h.0, Interleave-All-left i h.1)
  Interleave-All-left (right a i) h = Interleave-All-left i h.1

  pub Interleave-All-right : {xs ys zs : List A} → Interleave xs ys zs → All P zs → All P ys
  Interleave-All-right done h = tt
  Interleave-All-right (left a i) h = Interleave-All-right i h.1
  Interleave-All-right (right a i) h = (h.0, Interleave-All-right i h.1)

-- The images of a list of which none stands twice, and those of its two parts.
module _ {ℓ κ} {A : Type ℓ} {B : Type κ} ⦃e : Eq B⦄ (f : A → B) where
  elem-right :
      (b : B) {xs ys zs : List A}
      → Interleave xs ys zs
      → elem b (map f zs) ≡ false
      → elem b (map f ys) ≡ false
  elem-right b done h = refl
  elem-right b (left a i) h = elem-right b i (ground (arith, h))
  elem-right b (right a i) h = ground (arith, h, elem-right b i)

  elem-left :
      (b : B) {xs ys zs : List A}
      → Interleave xs ys zs
      → elem b (map f zs) ≡ false
      → elem b (map f xs) ≡ false
  elem-left b done h = refl
  elem-left b (left a i) h = ground (arith, h, elem-left b i)
  elem-left b (right a i) h = elem-left b i (ground (arith, h))

  pub Interleave-Distinct :
      {xs ys zs : List A} → Interleave xs ys zs → Distinct (map f zs) → Distinct (map f ys)
  Interleave-Distinct done d = tt
  Interleave-Distinct (left a i) d = Interleave-Distinct i d.1
  Interleave-Distinct (right a i) d = (elem-right (f a) i d.0, Interleave-Distinct i d.1)

  -- No item of a list has the image of another one.
  pub elem-All :
      (b : B) (xs : List A) → elem b (map f xs) ≡ false → All (λ x. (f x == b) ≡ false) xs
  elem-All b [] h = tt
  elem-All b (x ∷ xs) h = (ground (arith, h), elem-All b xs (ground (arith, h)))

  -- The items of one part have other images than those of the other.
  pub Interleave-apart :
      {xs ys zs : List A}
      → Interleave xs ys zs
      → Distinct (map f zs)
      → All (λ x. All (λ y. (f x == f y) ≡ false) ys) xs
  Interleave-apart done d = tt
  Interleave-apart (left {xs} {ys} a i) d = (
    All-imp (λ y. (f y == f a) ≡ false) (λ y. (f a == f y) ≡ false)
        (λ y h. ground (arith, h, e.beq_iff (f y) (f a), e.beq_iff (f a) (f y))) ys
        (elem-All (f a) ys (elem-right (f a) i d.0)),
    Interleave-apart i d.1,
  )
  Interleave-apart (right {xs} {ys} a i) d =
      All-imp2 (λ x. (f x == f a) ≡ false) (λ x. All (λ y. (f x == f y) ≡ false) ys)
        (λ x. All (λ y. (f x == f y) ≡ false) (a ∷ ys)) (λ x h k. (h, k)) xs
        (elem-All (f a) xs (elem-left (f a) i d.0)) (Interleave-apart i d.1)
