-- ===== src/Json/Access.antt =====
-- Access to the fields of a `dict`, truth, equality and `isinstance`.
use replaybook.Prelude.{
  String, Bool, true, false, not, Option, none, some, if◌then◌else◌, ◌≡◌, refl, arith,
}
use replaybook.Prelude.Int.{ℤ, pos, int_beq}
use replaybook.Prelude.Eq.{◌==◌, string_eq}
use replaybook.Prelude.Result.{Result, ok, err, key_error, attribute_error}
use replaybook.Json.{
  Value, null, bool, int, float, str, arr, obj, Items, nil, cons, Fields, end, field,
}
use replaybook.Json.Floats.{Floats}

module _ {F : Type 0} where
  unfoldable pub find : String → Fields F → Option (Value F)
  find k end = none
  find k (field j v fs) = if j == k then some v else find k fs

  abbrev pub or_null : Option (Value F) → Value F
  or_null none = null
  or_null (some v) = v

  -- `d.get(k)`
  unfoldable pub get : String → Fields F → Value F
  unfolding find
  get k fs = or_null (find k fs)

  abbrev pub or_value : Value F → Option (Value F) → Value F
  or_value d none = d
  or_value d (some v) = v

  -- `d.get(k, default)`
  unfoldable pub get_or : String → Value F → Fields F → Value F
  unfolding find
  get_or k default fs = or_value default (find k fs)

  abbrev pub or_key_error : Option (Value F) → Result (Value F)
  or_key_error none = err key_error
  or_key_error (some v) = ok v

  -- `d[k]`
  unfoldable pub index : String → Fields F → Result (Value F)
  unfolding find
  index k fs = or_key_error (find k fs)

  -- `k in d`
  unfoldable pub has_key : String → Fields F → Bool
  unfolding find
  has_key k fs = elim (find k fs) [ none ↦ false | some v ↦ true ]

  -- `d[k] = v`
  unfoldable pub put : String → Value F → Fields F → Fields F
  put k v end = field k v end
  put k v (field j w fs) = if j == k then field j v fs else field j w (put k v fs)

  -- `isinstance(v, dict)`, with the dict.
  abbrev pub as_obj : Value F → Option (Fields F)
  as_obj (obj fs) = some fs
  as_obj _ = none

  -- `isinstance(v, list)`, with the list.
  abbrev pub as_arr : Value F → Option (Items F)
  as_arr (arr vs) = some vs
  as_arr _ = none

  -- `isinstance(v, str)`, with the text.
  abbrev pub as_str : Value F → Option String
  as_str (str s) = some s
  as_str _ = none

  -- `isinstance(v, int)`, with the integer: a Python `bool` is an `int`.
  abbrev pub as_int : Value F → Option ℤ
  as_int (int z) = some z
  as_int (bool true) = some (pos 1)
  as_int (bool false) = some (pos 0)
  as_int _ = none

  abbrev pub is_null : Value F → Bool
  is_null null = true
  is_null _ = false

  abbrev pub is_str : Value F → Bool
  is_str (str s) = true
  is_str _ = false

  -- An attribute call such as `v.get(k)` on what is no `dict` raises AttributeError.
  abbrev pub dict_of : Value F → Result (Fields F)
  dict_of (obj fs) = ok fs
  dict_of _ = err attribute_error

  -- `v == s` for a text, and `v == s` where `s` may be `None`.
  abbrev pub eq_str : Value F → String → Bool
  eq_str (str t) s = t == s
  eq_str _ s = false

  abbrev pub eq_opt_str : Value F → Option String → Bool
  eq_opt_str v (some s) = eq_str v s
  eq_opt_str v none = is_null v

  -- `d.get(k)` behind `d[k] = v`.
  pub find-put :
      (k j : String) (v : Value F) (fs : Fields F)
      → find j (put k v fs) ≡ (if k == j then some v else find j fs)
  unfolding find put
  find-put k j v end = refl
  find-put k j v (field i w fs) = ground (
    arith,
    (string_eq).beq_iff k j,
    (string_eq).beq_iff i k,
    (string_eq).beq_iff i j,
    find-put k j v fs,
  )

  module _ ⦃fl : Floats F⦄ where
    -- `v == z` for an integer: `True == 1` and `1.0 == 1` hold.
    abbrev pub eq_int : Value F → ℤ → Bool
    eq_int (int y) z = int_beq y z
    eq_int (bool true) z = int_beq (pos 1) z
    eq_int (bool false) z = int_beq (pos 0) z
    eq_int (float x) z = fl.eq_int x z
    eq_int _ z = false

    abbrev pub truthy : Value F → Bool
    truthy null = false
    truthy (bool b) = b
    truthy (int z) = not (int_beq z (pos 0))
    truthy (float x) = not (fl.eq_int x (pos 0))
    truthy (str s) = not (s == "")
    truthy (arr nil) = false
    truthy (arr (cons v vs)) = true
    truthy (obj end) = false
    truthy (obj (field k v fs)) = true

    -- `v or w`
    abbrev pub or_else : Value F → Value F → Value F
    or_else v w = if truthy v then v else w
