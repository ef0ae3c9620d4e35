-- ===== src/Json/Floats.antt =====
-- What the programs use of Python's numbers besides the integers: `float`, and the reading of texts.
use replaybook.Prelude.{ℕ, String, Bool, Option, List}
use replaybook.Prelude.Int.{ℤ}
use replaybook.Prelude.Result.{Result}

pub record Floats (F : Type 0) : Type 0 where
  -- `float(n)`
  pub of_int : ℤ → F
  pub add : F → F → F
  pub sub : F → F → F
  pub mul : F → F → F
  pub div : F → F → F
  -- `sum(xs)` of floats
  pub sum : List F → F
  -- `statistics.mean(xs)`
  pub mean : List F → F
  -- `round(a, n)`
  pub round : F → ℕ → F
  -- `a < b`
  pub lt : F → F → Bool
  -- `a == b`
  pub eq : F → F → Bool
  -- `a == n` for an integer
  pub eq_int : F → ℤ → Bool
  -- `int(a)` and `math.ceil(a)`, which raise on nan and the infinities
  pub truncate : F → Result ℤ
  pub ceil : F → Result ℤ
  -- `float(s)` and `int(s)`; none where the text is no number
  pub of_text : String → Option F
  pub int_of_text : String → Option ℤ
