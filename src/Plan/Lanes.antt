-- ===== src/Plan/Lanes.antt =====
-- Lanes of integrations/host/benchmark_plan.py: `Lane`, `provider_id`, `coverage_lanes` and
-- `selected_lanes`.
use Prim.Native.Char.{Char, code}
use replaybook.Prelude.{
  String, Bool, true, false, ◌&&◌, ◌||◌, Option, none, some, List, [], ◌∷◌, ◌++◌, map, filter,
  is_nil, leb, nat_beq, if◌then◌else◌,
}
use replaybook.Prelude.Eq.{◌==◌, string_eq, option_eq, pair_eq, elem, unique}
use replaybook.Prelude.Dict.{Dict, lookup}
use replaybook.Prelude.Result.{Result, ok, err, value_error, raise_if, ◌>>=◌, ◌>>◌, map_result}
use replaybook.Json.{Value, null, str, obj}
use replaybook.Json.Access.{get}
use replaybook.Matrix.Slug.{lower}

-- `(provider, model, reasoning_effort)`, as the fields of a `Lane`.
abbrev pub Lane : Type 0
Lane = Option String × (String × Option String)

-- White space, and the underscore that is replaced by a space.
abbrev pub is_gap : Char → Bool
is_gap c =
    nat_beq (code c) 32
    || nat_beq (code c) b'_'
    || nat_beq (code c) 9
    || nat_beq (code c) 10
    || nat_beq (code c) 11
    || nat_beq (code c) 12
    || nat_beq (code c) 13
    || (leb 28 (code c) && leb (code c) 31)

-- `"-".join(value.replace("_", " ").split())`, by whether a word has begun and whether a gap has
-- followed it.
unfoldable pub dash_words : Bool → Bool → String → String
dash_words begun gap String.[] = String.[]
dash_words begun gap (String.◌∷◌ c s) = elim (is_gap c) [
  | true ↦ dash_words begun begun s
  | false ↦
      if gap
      then String.◌∷◌ "-" (String.◌∷◌ c (dash_words true false s))
      else String.◌∷◌ c (dash_words true false s)
]

abbrev pub aliases : Dict String String
aliases =
    ("openrouter", "openrouter")
    ∷ ("opencode-go", "opencode-go")
    ∷ ("opencode go", "opencode-go")
    ∷ ("vercel", "vercel-ai-gateway")
    ∷ ("vercel-ai-gateway", "vercel-ai-gateway")
    ∷ ("vercel ai gateway", "vercel-ai-gateway")
    ∷ []

abbrev pub text_default : String → Option String → String
text_default d none = d
text_default d (some s) = s

-- `provider_id`, on a label whose letters are ASCII.
unfoldable pub provider_id : Option String → Option String
unfolding dash_words
provider_id none = none
provider_id (some provider) =
    let normalized = dash_words false false (lower provider) in
    some (text_default normalized (lookup normalized aliases))

-- A text or `None`; the message is that of the exception for anything else.
abbrev pub optional_text : {F : Type 0} → Value F → String → Result (Option String)
optional_text null message = ok none
optional_text (str s) message = ok (some s)
optional_text _ message = err (value_error message)

-- One round of `coverage_lanes`.
abbrev pub coverage_lane : {F : Type 0} → Value F → Result Lane
coverage_lane (obj item) = elim (get "model" item) [
  | str model ↦
      optional_text (get "reasoning_effort" item)
        "coverage fleet contains an invalid reasoning effort"
      >>= λ effort.
          optional_text (get "provider" item) "coverage fleet contains an invalid provider"
          >>= λ provider. ok (provider, (model, effort))
  | _ ↦ err (value_error "coverage fleet contains an invalid lane")
]
coverage_lane _ = err (value_error "coverage fleet contains an invalid lane")

-- The argument is `coverage["fleet"]`.
unfoldable pub coverage_lanes : {F : Type 0} → List (Value F) → Result (List Lane)
coverage_lanes fleet = map_result coverage_lane fleet >>= λ lanes.
    raise_if (is_nil lanes) "coverage fleet is empty; pass --models explicitly" >> ok lanes

-- `provider_selected`; no providers is the same as an empty list of them.
abbrev pub provider_selected : List String → Option String → Bool
provider_selected providers provider =
    is_nil providers || elem (provider_id provider) (map (λ p. provider_id (some p)) providers)

abbrev pub cross : List (Option String) → String → List (Option String) → List Lane
cross [] model efforts = []
cross (provider ∷ providers) model efforts =
    map (λ effort. (provider, (model, effort))) efforts ++ cross providers model efforts

-- `providers or (None,)` and `reasoning_efforts or ("high",)`
abbrev pub or_default : List String → Option String → List (Option String)
or_default [] d = d ∷ []
or_default (x ∷ xs) d = map some (x ∷ xs)

-- The lanes of one requested model.
abbrev pub model_lanes : List Lane → List String → List (Option String) → String → List Lane
model_lanes configured providers efforts model =
    let matches =
      filter (λ lane. lane.1.0 == model && provider_selected providers lane.0) configured in
    if is_nil matches
    then cross (or_default providers none) model efforts
    else cross (unique (map (λ lane. lane.0) matches)) model efforts

abbrev pub all_model_lanes :
    List Lane → List String → List (Option String) → List String → List Lane
all_model_lanes configured providers efforts [] = []
all_model_lanes configured providers efforts (model ∷ models) =
    model_lanes configured providers efforts model
    ++ all_model_lanes configured providers efforts models

abbrev pub requested_effort : List String → Option String → Bool
requested_effort efforts none = false
requested_effort efforts (some e) = elem e efforts

-- The lanes that the fleet configures, of the requested providers and efforts.
abbrev pub configured_lanes : List Lane → List String → List String → Result (List Lane)
configured_lanes configured reasoning_efforts providers =
    let lanes = filter (λ lane. provider_selected providers lane.0) configured in
    if is_nil reasoning_efforts
    then ok (unique lanes)
    else raise_if (is_nil (filter (λ lane. requested_effort reasoning_efforts lane.1.1) lanes))
        "no configured coverage lanes use the requested effort"
      >> ok (unique (filter (λ lane. requested_effort reasoning_efforts lane.1.1) lanes))

-- The arguments are `coverage["fleet"]`, the models, the efforts and the providers.
unfoldable pub selected_lanes :
    {F : Type 0} → List (Value F) → List String → List String → List String → Result (List Lane)
unfolding coverage_lanes provider_id
selected_lanes fleet models reasoning_efforts providers = coverage_lanes fleet >>= λ configured.
    if is_nil models
    then configured_lanes configured reasoning_efforts providers
    else ok (
        unique (
          all_model_lanes configured providers (or_default reasoning_efforts (some "high")) models))
