-- ===== src/Prelude/Text.antt =====
-- Text: concatenation, decimal print and the tests on single characters.
use Prim.Native.Nat.{ℕ, zero, suc, ◌/◌, ◌%◌, ◌<◌}
use Prim.Native.Char.{Char, code}
use Prim.Native.String
use Prim.Native.String.{String}
use mathlib.Core.Path.{◌≡◌, refl}
use mathlib.Core.Logic.{inl, inr}
use mathlib.Core.Bool.{Bool, ◌&&◌, ◌||◌}
use mathlib.Core.List.{List}
use native.Mathlib.Omega.{arith}
use replaybook.Prelude.Int.{ℤ, pos, negsuc}
use replaybook.Prelude.Tests.{leb, ltb, if◌then◌else◌, Bool-cases}

-- The components of a path.
abbrev pub FilePath : Type 0
FilePath = List String

infixr 66 ◌<>◌
-- `a + b` on texts.
abbrev pub ◌<>◌ : String → String → String
a <> b = String.◌++◌ a b

abbrev pub is_digit : Char → Bool
is_digit c = leb b'0' (code c) && leb (code c) b'9'

abbrev pub is_upper : Char → Bool
is_upper c = leb b'A' (code c) && leb (code c) b'Z'

abbrev pub is_lower : Char → Bool
is_lower c = leb b'a' (code c) && leb (code c) b'z'

-- `[A-Za-z0-9]`.
abbrev pub is_alnum : Char → Bool
is_alnum c = is_digit c || is_upper c || is_lower c

-- Python's `str(n)` of a number, with fuel for the digits; `decimal_step` shows that it is enough.
digit_text : String → ℕ → String
digit_text String.[] d = String.[]
digit_text (String.◌∷◌ c s) zero = String.◌∷◌ c String.[]
digit_text (String.◌∷◌ c s) (suc d) = digit_text s d

unfoldable pub digit : ℕ → String
unfolding digit_text
digit d = digit_text "0123456789" d

decimal_from : ℕ → ℕ → String
unfolding digit
decimal_from zero n = ""
decimal_from (suc fuel) n =
    let front = decimal_from fuel (n / 10) in if ltb n 10 then digit n else front <> digit (n % 10)

unfoldable pub decimal : ℕ → String
unfolding decimal_from
decimal n = decimal_from (suc n) n

decimal_fuel : (f g n : ℕ) → n < f → n < g → decimal_from f n ≡ decimal_from g n
unfolding decimal_from
decimal_fuel zero g n h k = elim h [ ]
decimal_fuel (suc f) zero n h k = elim k [ ]
decimal_fuel (suc f) (suc g) n h k = elim (Bool-cases (ltb n 10)) [
  | inl small ↦ rw small
  | inr big ↦ rw (big, decimal_fuel f g (n / 10) (ground arith) (ground arith))
]

-- The last digit stands behind the print of the other digits.
pub decimal_step :
    (n : ℕ) → decimal n ≡ (if ltb n 10 then digit n else decimal (n / 10) <> digit (n % 10))
unfolding decimal decimal_from
decimal_step n = elim (Bool-cases (ltb n 10)) [
  | inl small ↦ rw small
  | inr big ↦ rw (big, decimal_fuel n (suc (n / 10)) (n / 10) (ground arith) (omega arith))
]

decimal_test : decimal 22600 ≡ "22600"
unfolding decimal digit
decimal_test = refl

-- Python's `str(z)` of an integer.
abbrev pub int_text : ℤ → String
int_text (pos n) = decimal n
int_text (negsuc n) = "-" <> decimal (suc n)
