-- ===== src/Prelude/Dict.antt =====
-- A Python `dict` as an association list in insertion order.
use mathlib.Core.Path.{◌≡◌, refl}
use mathlib.Core.Option.{Option, none, some}
use mathlib.Core.List.{List, [], ◌∷◌, map}
use mathlib.Core.Bool.{true, false, ◌||◌}
use mathlib.Core.Logic.{inl, inr}
use native.Mathlib.Omega.{arith}
use replaybook.Prelude.Tests.{if◌then◌else◌, Bool-cases}
use replaybook.Prelude.Eq.{Eq, ◌==◌, elem, Distinct, eq_self}
use Prim.Native.Nat.{ℕ, ◌+◌}
use replaybook.Prelude.Lists.{All, sum}

abbrev pub Dict {ℓ κ} : Type ℓ → Type κ → Type (ℓ ⊔ κ)
Dict K V = List (K × V)

module _ {ℓ κ} {K : Type ℓ} {V : Type κ} ⦃e : Eq K⦄ where
  -- `d.get(k)`.
  unfoldable pub lookup : K → Dict K V → Option V
  lookup k [] = none
  lookup k ((j, v) ∷ d) = if j == k then some v else lookup k d

  -- `d[k] = f(d[k])` where the key is there, and `d[k] = f(default)` at the end where it is not.
  unfoldable pub alter : V → (V → V) → K → Dict K V → Dict K V
  alter default f k [] = (k, f default) ∷ []
  alter default f k ((j, v) ∷ d) = if j == k then (j, f v) ∷ d else (j, v) ∷ alter default f k d

  pub lookup-alter :
      (default : V) (f : V → V) (k j : K) (d : Dict K V)
      → lookup j (alter default f k d) ≡ (
          if k == j
          then some (f (elim (lookup k d) [ none ↦ default | some v ↦ v ]))
          else lookup j d)
  unfolding lookup alter
  lookup-alter default f k j [] = ground (arith, e.beq_iff k j)
  lookup-alter default f k j ((i, w) ∷ d) =
      ground (arith, e.beq_iff k j, e.beq_iff i k, e.beq_iff i j, lookup-alter default f k j d)

  -- A key that is not found stands nowhere.
  pub lookup-none : (k : K) (d : Dict K V) → lookup k d ≡ none → elem k (map (λ p. p.0) d) ≡ false
  unfolding lookup
  lookup-none k [] h = refl
  lookup-none k ((j, v) ∷ d) h = elim (Bool-cases (j == k)) [
    | inl same ↦ absurd (cc (rw same at h))
    | inr other ↦ rw other (lookup-none k d (rw other at h))
  ]

  abbrev pub dict_keys : Dict K V → List K
  dict_keys d = map (λ p. p.0) d

  pub elem-dict_keys-alter :
      (default : V) (f : V → V) (k j : K) (d : Dict K V)
      → elem j (dict_keys (alter default f k d)) ≡ (elem j (dict_keys d) || k == j)
  unfolding alter
  elem-dict_keys-alter default f k j [] = ground arith
  elem-dict_keys-alter default f k j ((i, w) ∷ d) =
      ground (arith, e.beq_iff i k, elem-dict_keys-alter default f k j d)

  -- A change repeats no key.
  pub alter-Distinct :
      (default : V) (f : V → V) (k : K) (d : Dict K V)
      → Distinct (dict_keys d)
      → Distinct (dict_keys (alter default f k d))
  unfolding alter
  alter-Distinct default f k [] h = (refl, tt)
  alter-Distinct default f k ((i, w) ∷ d) h = elim (Bool-cases (i == k)) [
    | inl same ↦ rw same h
    | inr other ↦ rw other (
      ground
          (arith, h.0, other, e.beq_iff i k, e.beq_iff k i, elem-dict_keys-alter default f k i d),
      alter-Distinct default f k d h.1,
    )
  ]

  apart :
      (k : K) (v : V) (d : Dict K V)
      → elem k (dict_keys d) ≡ false
      → (c : Dict K V) → All (λ p. lookup p.0 c ≡ some p.1) d
      → All (λ p. lookup p.0 ((k, v) ∷ c) ≡ some p.1) d
  unfolding lookup
  apart k v [] h c a = tt
  apart k v ((j, w) ∷ d) h c a =
      (ground (arith, h, a.0, e.beq_iff j k, e.beq_iff k j), apart k v d (ground (arith, h)) c a.1)

  -- Where no key repeats, every item is the one that is found under its key.
  pub lookup-items : (d : Dict K V) → Distinct (dict_keys d) → All (λ p. lookup p.0 d ≡ some p.1) d
  unfolding lookup
  lookup-items [] h = tt
  lookup-items ((k, v) ∷ d) h = (ground (arith, eq_self k), apart k v d h.0 d (lookup-items d h.1))

  pub lookup-elem :
      (k : K) (v : V) (d : Dict K V) → lookup k d ≡ some v → elem k (dict_keys d) ≡ true
  unfolding lookup
  lookup-elem k v [] h = absurd cc
  lookup-elem k v ((j, w) ∷ d) h = elim (Bool-cases (j == k)) [
    | inl same ↦ rw same refl
    | inr other ↦ rw other (lookup-elem k v d (rw other at h))
  ]

  -- What a change does to a sum over the values.
  pub sum-alter :
      (m : V → ℕ) (default : V) (f : V → V) (x : ℕ)
      → m default ≡ 0
      → ((v : V) → m (f v) ≡ m v + x)
      → (k : K) (d : Dict K V)
      → sum (map (λ p. m p.1) (alter default f k d)) ≡ sum (map (λ p. m p.1) d) + x
  unfolding alter
  sum-alter m default f x none_first adds k [] = omega (arith, adds default, none_first)
  sum-alter m default f x none_first adds k ((j, v) ∷ d) = elim (Bool-cases (j == k)) [
    | inl same ↦ rw same (omega (arith, adds v))
    | inr other ↦ rw other (omega (arith, sum-alter m default f x none_first adds k d))
  ]
