-- ===== src/Plan/Sources.antt =====
-- The files of integrations/host/benchmark_plan.py: `read_json`, `read_catalog` and `local_sources`
-- behind the JSON parser, and `duration`. The path of a file is its text.
use replaybook.Prelude.{
  ℕ, ◌/◌, ◌%◌, String, Bool, true, false, not, ◌||◌, Option, none, some, List, [], ◌∷◌, any, ltb,
  nat_beq, if◌then◌else◌,
}
use replaybook.Prelude.Int.{pos}
use replaybook.Prelude.Text.{◌<>◌, decimal}
use replaybook.Prelude.Eq.{string_eq}
use replaybook.Prelude.Result.{Result, ok, err, value_error, raise_if, ◌>>=◌, ◌>>◌}
use replaybook.Json.{Value, arr, obj, nil, cons, Fields, end, field, items_list}
use replaybook.Json.Floats.{Floats}
use replaybook.Json.Access.{get, as_obj, as_arr, dict_of, eq_str, eq_int, or_else}
use replaybook.Matrix.Results.{Reading, absent, unreadable, document}
use replaybook.Plan.Gaps.{dicts}

module _ {F : Type 0} where
  abbrev pub is_list : Value F → Bool
  is_list v = elim (as_arr v) [ none ↦ false | some vs ↦ true ]

  abbrev pub is_dict : Value F → Bool
  is_dict v = elim (as_obj v) [ none ↦ false | some d ↦ true ]

  abbrev pub fields_of : Value F → String → Result (Fields F)
  fields_of (obj d) message = ok d
  fields_of _ message = err (value_error message)

  -- `json.loads(path.read_text())`; a file that is not there cannot be read.
  abbrev pub parsed_json : Reading F → String → Result (Value F)
  parsed_json absent message = err (value_error message)
  parsed_json (unreadable text) message = err (value_error (message <> ": " <> text))
  parsed_json (document v) message = ok v

module _ {F : Type 0} ⦃fl : Floats F⦄ where
  unfoldable pub read_json : String → Reading F → Result (Fields F)
  read_json source reading = do
    parsed ← parsed_json reading ("could not read coverage evidence " <> source)
    value ← fields_of parsed (source <> ": unsupported coverage schema")
    raise_if (not (eq_int (get "schema_version" value) (pos 1)))
        (source <> ": unsupported coverage schema")
    raise_if (not (is_list (get "fleet" value)) || not (is_list (get "scenarios" value)))
        (source <> ": malformed coverage evidence")
    ok value

  unfoldable pub read_catalog : String → Reading F → Result (Fields F)
  read_catalog source reading = do
    parsed ← parsed_json reading ("could not read benchmark catalog " <> source)
    value ← fields_of parsed (source <> ": unsupported benchmark catalog schema")
    raise_if
        (not (eq_int (get "schema_version" value) (pos 1)) || not (is_list (get "lanes" value)))
        (source <> ": unsupported benchmark catalog schema")
    ok value

  -- The sources of a submission bundle.
  abbrev pub bundle_sources : String → Value F → Result (List (Fields F))
  bundle_sources path sources = elim (as_arr sources) [
    | none ↦ err (value_error (path <> ": malformed benchmark submission"))
    | some vs ↦
        raise_if (any (λ v. not (is_dict v)) (items_list vs))
          (path <> ": malformed benchmark submission")
        >> ok (dicts (items_list vs))
  ]

  -- The one source that a matrix summary is.
  abbrev pub summary_source : Fields F → Fields F → Fields F → Fields F
  summary_source value benchmark agent = field "suite" (get "suite" value) (
      field "harness_versions"
        (or_else (get "harness_versions" value) (arr (cons (get "harness_version" value) nil)))
        (field "benchmark_manifest" (get "benchmark_manifest" benchmark) (
          field "benchmark_tier" (get "tier" benchmark) (
            field "attempts" (get "attempts" benchmark) (
              field "agent_timeout_seconds" (get "agent_timeout_seconds" benchmark) (
                field "agent_provider" (get "provider" agent) (
                  field "scenario_packs" (get "scenario_packs" benchmark) (
                    field "scenarios" (get "scenarios" benchmark)
                      (field "runs" (get "runs" value) end)))))))))

  -- `is_summary` says that the file is named summary.json.
  unfoldable pub local_sources : String → Bool → Reading F → Result (List (Fields F))
  local_sources path is_summary reading = do
    parsed ← parsed_json reading ("could not read local evidence " <> path)
    value ← fields_of parsed (path <> ": local evidence must be a JSON object")
    if eq_str (get "kind" value) "replaybook-benchmark-submission"
        then (dict_of (or_else (get "evidence" value) (obj end)) >>= λ evidence.
            bundle_sources path (get "sources" evidence))
        else if eq_str (get "suite" value) "replaybook-host-matrix-v1"
        then (dict_of (or_else (get "benchmark" value) (obj end)) >>= λ benchmark.
            dict_of (or_else (get "agent" benchmark) (obj end)) >>= λ agent.
            ok (summary_source value benchmark agent ∷ []))
        else if is_summary
        then ok []
        else err (value_error (path <> ": expected a host matrix summary or submission bundle"))

abbrev pub two_digits : ℕ → String
two_digits n = if ltb n 10 then "0" <> decimal n else decimal n

-- `duration`, of a number of seconds that is not negative.
unfoldable pub duration : Option ℕ → String
duration none = "n/a"
duration (some value) =
    if nat_beq (value / 3600) 0
    then decimal (value % 3600 / 60) <> "m " <> two_digits (value % 3600 % 60) <> "s"
    else decimal (value / 3600) <> "h " <> two_digits (value % 3600 / 60) <> "m"
