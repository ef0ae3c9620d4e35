-- ===== src/Prelude/Result.antt =====
-- Functions that may raise: a value, or the exception by its class and its text.
use Prim.Native.String.{String}
use Prim.Native.Nat.{suc}
use mathlib.Core.Path.{◌≡◌, refl, sym, ap, subst}
use mathlib.Core.Logic.{◌↔◌, ◌⊎◌, inl, inr}
use mathlib.Core.Bool.{Bool, true, false}
use mathlib.Core.List.{List, [], ◌∷◌}
use mathlib.Core.Option.{Option, none, some}
use replaybook.Prelude.Lists.{length, All}

pub data Error : Type 0 where
  value_error : String → Error
  type_error key_error index_error attribute_error overflow_error : Error

pub data Result {ℓ} (A : Type ℓ) : Type ℓ where
  err : Error → Result A
  ok : A → Result A

-- The rest of a computation runs where the first part returned.
infixl 5 ◌>>=◌
abbrev pub ◌>>=◌ {ℓ κ} : {A : Type ℓ} {B : Type κ} → Result A → (A → Result B) → Result B
err raised >>= rest = err raised
ok value >>= rest = rest value

infixl 5 ◌>>◌
abbrev pub ◌>>◌ {ℓ} : {A : Type ℓ} → Result (Unit {0}) → Result A → Result A
first >> second = first >>= λ _. second

-- `if b: raise ValueError(text)`.
abbrev pub raise_if : Bool → String → Result (Unit {0})
raise_if true text = err (value_error text)
raise_if false text = ok tt

-- Inversion of a successful bind.
pub >>=-eq-ok {ℓ κ} :
    {X : Type ℓ} {Y : Type κ} (first : Result X) (rest : X → Result Y) {y : Y}
    → (first >>= rest) ≡ ok y
    → (x : X) × (first ≡ ok x) × (rest x ≡ ok y)
>>=-eq-ok (err raised) rest returns = cc
>>=-eq-ok (ok x) rest returns = (x, refl, returns)

-- `[f(x) for x in xs]` where `f` may raise: the first exception ends it.
module _ {ℓ κ} {A : Type ℓ} {B : Type κ} where
  abbrev pub map_result : (A → Result B) → List A → Result (List B)
  map_result f [] = ok []
  map_result f (x ∷ xs) = f x >>= λ y. map_result f xs >>= λ ys. ok (y ∷ ys)

value_or {ℓ} : {A : Type ℓ} → A → Result A → A
value_or a (ok b) = b
value_or a (err e) = a

pub ok-injective {ℓ} : {A : Type ℓ} {a b : A} → ok a ≡ ok b → a ≡ b
unfolding value_or
ok-injective {a = a} h = ap (value_or a) h

-- A check that ends in a further one.
pub raise_if-ok {ℓ} :
    {B : Type ℓ} {x : B} (b : Bool) (text : String) (k : Result B)
    → ((raise_if b text >> k) ≡ ok x) ↔ ((b ≡ false) × (k ≡ ok x))
raise_if-ok true text k = ((λ h. absurd cc), (λ h. absurd cc))
raise_if-ok false text k = ((λ h. (refl, h)), (λ h. h.1))

-- To split on a computed result and keep the equation.
pub Result-cases {ℓ} :
    {A : Type ℓ} (r : Result A) → ((e : Error) × (r ≡ err e)) ⊎ ((a : A) × (r ≡ ok a))
Result-cases (err e) = inl (e, refl)
Result-cases (ok a) = inr (a, refl)

-- What is found, or a ValueError.
abbrev pub or_raise {ℓ} : {A : Type ℓ} → Option A → String → Result A
or_raise none message = err (value_error message)
or_raise (some a) message = ok a

pub or_raise-ok {ℓ} :
    {A : Type ℓ} (o : Option A) (message : String) (a : A) → or_raise o message ≡ ok a → o ≡ some a
or_raise-ok none message a h = absurd cc
or_raise-ok (some b) message a h = ap some (ok-injective h)

module _ {ℓ κ} {A : Type ℓ} {B : Type κ} where
  pub length-map_result :
      (f : A → Result B) (as' : List A) (bs : List B)
      → map_result f as' ≡ ok bs
      → length bs ≡ length as'
  length-map_result f [] bs h = sym (ap length (ok-injective h))
  length-map_result f (a ∷ as') bs h =
      let (b, _, h₁) = >>=-eq-ok (f a) _ h in
      let (rest, k, h₂) = >>=-eq-ok (map_result f as') _ h₁ in
      subst (λ l. length l ≡ length (a ∷ as')) (ok-injective h₂)
        (ap suc (length-map_result f as' rest k))

  -- What holds of each result holds of all.
  pub map_result-All {μ} :
      (f : A → Result B) (P : B → Type μ) (each : (a : A) (b : B) → f a ≡ ok b → P b) (as' : List A)
      (bs : List B)
      → map_result f as' ≡ ok bs
      → All P bs
  map_result-All f P each [] bs h = subst (All P) (ok-injective h) tt
  map_result-All f P each (a ∷ as') bs h =
      let (b, e, h₁) = >>=-eq-ok (f a) _ h in
      let (rest, k, h₂) = >>=-eq-ok (map_result f as') _ h₁ in
      subst (All P) (ok-injective h₂) (each a b e, map_result-All f P each as' rest k)
