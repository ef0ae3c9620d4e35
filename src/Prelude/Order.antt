-- ===== src/Prelude/Order.antt =====
-- Python's order on texts and `sorted`.
use Prim.Native.Nat.{ℕ, suc, ◌+◌}
use Prim.Native.Char.{code}
use Prim.Native.String.{String}
use mathlib.Core.Path.{◌≡◌, refl}
use mathlib.Core.Bool.{Bool, true, false}
use mathlib.Core.List.{List, [], ◌∷◌, map}
use native.Mathlib.Omega.{arith}
use mathlib.Core.Logic.{inl, inr}
use replaybook.Prelude.Tests.{ltb, nat_beq, if◌then◌else◌, Bool-cases}
use replaybook.Prelude.Lists.{length, count_if, sum, All}
use replaybook.Prelude.Text.{◌<>◌}

-- `a <= b`, by the codes of the characters.
abbrev pub string_leb : String → String → Bool
string_leb String.[] t = true
string_leb (String.◌∷◌ c s) String.[] = false
string_leb (String.◌∷◌ c s) (String.◌∷◌ d t) =
    let rest = string_leb s t in
    if ltb (code c) (code d) then true else if nat_beq (code c) (code d) then rest else false

-- `", ".join(xs)`
abbrev pub join : List String → String
join [] = ""
join (x ∷ []) = x
join (x ∷ y ∷ ys) = x <> ", " <> join (y ∷ ys)

module _ {ℓ} {A : Type ℓ} (le : A → A → Bool) where
  unfoldable pub insert : A → List A → List A
  insert a [] = a ∷ []
  insert a (x ∷ xs) = let rest = insert a xs in if le a x then a ∷ x ∷ xs else x ∷ rest

  -- `sorted(xs)`, by the order `le`; equal items keep their order.
  unfoldable pub sort : List A → List A
  unfolding insert
  sort [] = []
  sort (x ∷ xs) = insert x (sort xs)

  count_if-insert :
      (p : A → Bool) (a : A) (xs : List A)
      → count_if p (insert a xs) ≡ (if p a then 1 else 0) + count_if p xs
  unfolding insert
  count_if-insert p a [] = refl
  count_if-insert p a (x ∷ xs) = ground (arith, count_if-insert p a xs)

  -- Sorting keeps the items: each test counts the same.
  pub count_if-sort : (p : A → Bool) (xs : List A) → count_if p (sort xs) ≡ count_if p xs
  unfolding sort
  count_if-sort p [] = refl
  count_if-sort p (x ∷ xs) = omega (arith, count_if-insert p x (sort xs), count_if-sort p xs)

  length-insert : (a : A) (xs : List A) → length (insert a xs) ≡ suc (length xs)
  unfolding insert
  length-insert a [] = refl
  length-insert a (x ∷ xs) = ground (arith, length-insert a xs)

  pub length-sort : (xs : List A) → length (sort xs) ≡ length xs
  unfolding sort
  length-sort [] = refl
  length-sort (x ∷ xs) = omega (arith, length-insert x (sort xs), length-sort xs)

  sum-insert : (n : A → ℕ) (a : A) (xs : List A) → sum (map n (insert a xs)) ≡ n a + sum (map n xs)
  unfolding insert
  sum-insert n a [] = refl
  sum-insert n a (x ∷ xs) = ground (arith, sum-insert n a xs)

  pub sum-sort : (n : A → ℕ) (xs : List A) → sum (map n (sort xs)) ≡ sum (map n xs)
  unfolding sort
  sum-sort n [] = refl
  sum-sort n (x ∷ xs) = omega (arith, sum-insert n x (sort xs), sum-sort n xs)

module _ {ℓ κ} {A : Type ℓ} (le : A → A → Bool) (P : A → Type κ) where
  All-insert : (a : A) (xs : List A) → P a → All P xs → All P (insert le a xs)
  unfolding insert
  All-insert a [] p h = (p, tt)
  All-insert a (x ∷ xs) p h = elim (Bool-cases (le a x)) [
    | inl good ↦ rw good (p, h)
    | inr bad ↦ rw bad (h.0, All-insert a xs p h.1)
  ]

  pub All-sort : (xs : List A) → All P xs → All P (sort le xs)
  unfolding sort
  All-sort [] h = tt
  All-sort (x ∷ xs) h = All-insert x (sort le xs) h.0 (All-sort xs h.1)
