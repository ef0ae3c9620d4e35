-- ===== src/Phase/Values.antt =====
-- `string_value`, `integer_value`, `number_value`, `format_value`, `matches` and `failure` of
-- integrations/host/scenario_phase.py, and `repr` of a text. `format` takes the plain fields
-- `{phase}` and `{id}`: a conversion, a format or an attribute behind a name is read as part of it.
use Prim.Native.Char.{Char, code}
use replaybook.Prelude.{
  ℕ, zero, suc, ◌/◌, ◌%◌, String, Bool, true, false, not, ◌&&◌, ◌||◌, Option, none, some, ltb, leb,
  nat_beq, if◌then◌else◌,
}
use replaybook.Prelude.Int.{ℤ, int_beq, int_ltb, is_positive, pos}
use replaybook.Prelude.Eq.{◌==◌, string_eq}
use replaybook.Prelude.Text.{◌<>◌}
use replaybook.Prelude.Result.{Result, ok, err, value_error, key_error, index_error, ◌>>=◌}
use replaybook.Json.{Value, null, int, float, str, Fields}
use replaybook.Json.Floats.{Floats}
use replaybook.Json.Access.{get, get_or, is_null, eq_str}
use replaybook.Phase.{Response, Outcome, failed, raised}

abbrev pub one : Char → String
one c = String.◌∷◌ c String.[]

-- Where the reader of a template stands: in the text, behind `{`, in a name, or behind `}`.
pub data Mode : Type 0 where
  plain opening closing : Mode
  naming : String → Mode

abbrev pub is_number : String → Bool
is_number String.[] = true
is_number (String.◌∷◌ c s) = leb b'0' (code c) && leb (code c) b'9' && is_number s

-- The value of a field; there are no positional arguments.
abbrev pub field_value : String → String → String → Result String
field_value phase identifier name =
    if name == "phase"
    then ok phase
    else if name == "id"
    then ok identifier
    else if is_number name
    then err index_error
    else err key_error

-- The text that a character of a template adds, and the mode behind it.
unfoldable pub format_char : String → String → Mode → Char → Result (String × Mode)
format_char phase identifier plain c = ok (
    if nat_beq (code c) b'{'
    then ("", opening)
    else if nat_beq (code c) b'}'
    then ("", closing)
    else (one c, plain))
format_char phase identifier opening c =
    if nat_beq (code c) b'{'
    then ok (one c, plain)
    else if nat_beq (code c) b'}'
    then (field_value phase identifier "" >>= λ v. ok (v, plain))
    else ok ("", naming (one c))
format_char phase identifier closing c =
    if nat_beq (code c) b'}'
    then ok (one c, plain)
    else err (value_error "Single '}' encountered in format string")
format_char phase identifier (naming name) c =
    if nat_beq (code c) b'}'
    then (field_value phase identifier name >>= λ v. ok (v, plain))
    else if nat_beq (code c) b'{'
    then err (value_error "unexpected '{' in field name")
    else ok ("", naming (name <> one c))

-- The end of a template.
abbrev pub format_end : Mode → Result String
format_end plain = ok ""
format_end opening = err (value_error "Single '{' encountered in format string")
format_end closing = err (value_error "Single '}' encountered in format string")
format_end (naming name) = err (value_error "expected '}' before end of string")

unfoldable pub format_from : String → String → Mode → String → Result String
unfolding format_char
format_from phase identifier mode String.[] = format_end mode
format_from phase identifier mode (String.◌∷◌ c s) =
    format_char phase identifier mode c >>= λ (front, next).
    format_from phase identifier next s >>= λ rest. ok (front <> rest)

unfoldable pub format_value : String → String → String → Result String
unfolding format_from
format_value value phase identifier = format_from phase identifier plain value

abbrev pub text_at : String → ℕ → String
text_at String.[] n = ""
text_at (String.◌∷◌ c s) zero = one c
text_at (String.◌∷◌ c s) (suc n) = text_at s n

abbrev pub hex_digit : ℕ → String
hex_digit n = text_at "0123456789abcdef" n

-- `'` stands in the text and `"` does not: then `repr` quotes with `"`.
abbrev pub has_char : ℕ → String → Bool
has_char n String.[] = false
has_char n (String.◌∷◌ c s) = nat_beq (code c) n || has_char n s

abbrev pub repr_char : ℕ → Char → String
repr_char quote c =
    if nat_beq (code c) 92
    then "\\\\"
    else if nat_beq (code c) quote
    then "\\" <> one c
    else if nat_beq (code c) 10
    then "\\n"
    else if nat_beq (code c) 13
    then "\\r"
    else if nat_beq (code c) 9
    then "\\t"
    else if ltb (code c) 32 || nat_beq (code c) 127
    then "\\x" <> hex_digit (code c / 16) <> hex_digit (code c % 16)
    else one c

abbrev pub repr_chars : ℕ → String → String
repr_chars quote String.[] = ""
repr_chars quote (String.◌∷◌ c s) = repr_char quote c <> repr_chars quote s

-- `repr(s)`: beyond ASCII every character counts as printable.
unfoldable pub repr : String → String
repr s =
    if has_char 39 s && not (has_char 34 s)
    then "\"" <> repr_chars 34 s <> "\""
    else "'" <> repr_chars 39 s <> "'"

module _ {F : Type 0} where
  abbrev pub nonempty_text : Value F → String → Result String
  nonempty_text (str s) key =
      if s == "" then err (value_error (key <> " must be a non-empty string")) else ok s
  nonempty_text _ key = err (value_error (key <> " must be a non-empty string"))

  abbrev pub str_or_null : Option String → Value F
  str_or_null none = null
  str_or_null (some s) = str s

  unfoldable pub string_value : Fields F → String → Option String → Result String
  string_value step key default = nonempty_text (get_or key (str_or_null default) step) key

  -- An integer that is no Boolean.
  abbrev pub plain_int : Value F → String → Result ℤ
  plain_int (int z) key = ok z
  plain_int _ key = err (value_error (key <> " must be an integer"))

  abbrev pub int_or_null : Option ℤ → Value F
  int_or_null none = null
  int_or_null (some z) = int z

  unfoldable pub integer_value : Fields F → String → Option ℤ → Result ℤ
  integer_value step key default = plain_int (get_or key (int_or_null default) step) key

  -- `PhaseFailure(message, ...)`, or the ValueError of a bad category.
  unfoldable pub failure : Fields F → String → Outcome
  unfolding string_value
  failure step message = elim (string_value step "failure_category" (some "verification_failed")) [
    | err e ↦ raised e
    | ok category ↦ failed category message
  ]

module _ {F : Type 0} ⦃fl : Floats F⦄ where
  abbrev pub positive_number : Value F → String → Result F
  positive_number (int z) key =
      if is_positive z
      then ok (fl.of_int z)
      else err (value_error (key <> " must be a positive number"))
  positive_number (float x) key =
      if fl.lt x (fl.of_int (pos 0)) || fl.eq_int x (pos 0)
      then err (value_error (key <> " must be a positive number"))
      else ok x
  positive_number _ key = err (value_error (key <> " must be a positive number"))

  unfoldable pub number_value : Fields F → String → ℕ → Result F
  number_value step key default =
      positive_number (get_or key (float (fl.of_int (pos default))) step) key

  -- The test of the body against `body_integer_min`.
  abbrev pub reaches : String → Value F → Result Bool
  reaches body null = ok true
  reaches body (int minimum) = elim (fl.int_of_text body) [
    | none ↦ ok false
    | some z ↦ ok (not (int_ltb z minimum))
  ]
  reaches body _ = err (value_error "body_integer_min must be an integer")

  unfoldable pub matches : Response → Fields F → Result Bool
  unfolding integer_value
  matches response step = integer_value step "expected_status" (some (pos 200)) >>= λ expected.
      if not (int_beq response.status expected)
      then ok false
      else if not (is_null (get "expected_body" step))
          && not (eq_str (get "expected_body" step) response.body)
      then ok false
      else reaches response.body (get "body_integer_min" step)
