-- ===== src/Json/Numbers.antt =====
-- Python's conversions to numbers, its iteration over a value, `min`, `max` and
-- `statistics.median`.
use replaybook.Prelude.{
  ◌/◌, ◌%◌, ◌-◌, String, true, false, not, Option, none, some, List, [], ◌∷◌, length, nat_beq,
  get_elem?, if◌then◌else◌,
}
use replaybook.Prelude.Int.{ℤ, pos, int_add, int_ltb}
use replaybook.Prelude.Order.{sort}
use replaybook.Prelude.Result.{Result, ok, err, value_error, type_error}
use replaybook.Json.{Value, null, bool, int, float, str, arr, obj, Fields, end, field, items_list}
use replaybook.Json.Floats.{Floats}

-- Iteration over a text: its characters.
abbrev pub characters : {F : Type 0} → String → List (Value F)
characters String.[] = []
characters (String.◌∷◌ c s) = str (String.◌∷◌ c String.[]) ∷ characters s

-- Iteration over a `dict`: its keys.
abbrev pub keys : {F : Type 0} → Fields F → List (Value F)
keys end = []
keys (field k v fs) = str k ∷ keys fs

-- `iter(v)`
abbrev pub iterate : {F : Type 0} → Value F → Result (List (Value F))
iterate (arr vs) = ok (items_list vs)
iterate (obj fs) = ok (keys fs)
iterate (str s) = ok (characters s)
iterate _ = err type_error

module _ {F : Type 0} ⦃fl : Floats F⦄ where
  -- `float(v)`
  abbrev pub to_float : Value F → Result F
  to_float (bool true) = ok (fl.of_int (pos 1))
  to_float (bool false) = ok (fl.of_int (pos 0))
  to_float (int z) = ok (fl.of_int z)
  to_float (float x) = ok x
  to_float (str s) = elim (fl.of_text s) [
    | none ↦ err (value_error "could not convert string to float")
    | some x ↦ ok x
  ]
  to_float _ = err type_error

  -- `int(v)`
  abbrev pub to_int : Value F → Result ℤ
  to_int (bool true) = ok (pos 1)
  to_int (bool false) = ok (pos 0)
  to_int (int z) = ok z
  to_int (float x) = fl.truncate x
  to_int (str s) = elim (fl.int_of_text s) [
    | none ↦ err (value_error "invalid literal for int()")
    | some z ↦ ok z
  ]
  to_int _ = err type_error

  -- `min(x, *xs)`: the first of the least ones.
  abbrev pub least : F → List F → F
  least x [] = x
  least x (y ∷ ys) = if fl.lt y x then least y ys else least x ys

  -- `max(x, y)`
  abbrev pub larger : F → F → F
  larger x y = if fl.lt x y then y else x

  abbrev pub middle : F → Option F → Option F → Option F
  middle two (some x) (some y) = some (fl.div (fl.add x y) two)
  middle two _ _ = none

  -- `statistics.median(xs) if xs else None`
  abbrev pub median : List F → Option F
  median xs =
      let sorted = sort (λ x y. not (fl.lt y x)) xs in
      let n = length xs in
      if nat_beq (n % 2) 1
      then get_elem? sorted (n / 2)
      else middle (fl.of_int (pos 2)) (get_elem? sorted (n / 2 - 1)) (get_elem? sorted (n / 2))

  abbrev pub int_middle : Option ℤ → Option ℤ → Value F
  int_middle (some x) (some y) = float (fl.div (fl.of_int (int_add x y)) (fl.of_int (pos 2)))
  int_middle _ _ = null

  abbrev pub or_null_int : Option ℤ → Value F
  or_null_int none = null
  or_null_int (some z) = int z

  -- The same for integers: an integer, or the float between two.
  abbrev pub int_median : List ℤ → Value F
  int_median xs =
      let sorted = sort (λ x y. not (int_ltb y x)) xs in
      let n = length xs in
      if nat_beq (n % 2) 1
      then or_null_int (get_elem? sorted (n / 2))
      else int_middle (get_elem? sorted (n / 2 - 1)) (get_elem? sorted (n / 2))
