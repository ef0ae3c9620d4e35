-- ===== src/Matrix/Slug.antt =====
-- `slugify` of integrations/host/run_host_matrix.py, over the characters of a text.
use Prim.Native.Char.{Char, code}
use replaybook.Prelude.{String, ◌≡◌, refl, Bool, false, not, ◌&&◌, nat_beq, if◌then◌else◌}
use replaybook.Prelude.Eq.{◌==◌, string_eq}
use replaybook.Prelude.Text.{is_alnum}

abbrev dash : Char
dash = "-"

abbrev is_dash : Char → Bool
is_dash c = nat_beq (code c) b'-'

-- `re.sub(r"[^A-Za-z0-9]+", "-", value)`: the flag says that the run being replaced has its dash.
collapse : Bool → String → String
collapse in_run String.[] = String.[]
collapse in_run (String.◌∷◌ c s) =
    let rest = collapse (not (is_alnum c)) s in
    if is_alnum c then String.◌∷◌ c rest else if in_run then rest else String.◌∷◌ dash rest

-- `.strip("-")`
lstrip : String → String
lstrip String.[] = String.[]
lstrip (String.◌∷◌ c s) = let rest = lstrip s in if is_dash c then rest else String.◌∷◌ c s

rstrip : String → String
rstrip String.[] = String.[]
rstrip (String.◌∷◌ c s) =
    let rest = rstrip s in if is_dash c && rest == "" then String.[] else String.◌∷◌ c rest

-- `.lower()` on a text whose letters are ASCII.
unfoldable pub lower_in : String → String → Char → Char
lower_in (String.◌∷◌ u us) (String.◌∷◌ l ls) c =
    if nat_beq (code u) (code c) then l else lower_in us ls c
lower_in _ _ c = c

unfoldable pub lower_char : Char → Char
unfolding lower_in
lower_char c = lower_in "ABCDEFGHIJKLMNOPQRSTUVWXYZ" "abcdefghijklmnopqrstuvwxyz" c

unfoldable pub lower : String → String
unfolding lower_char
lower String.[] = String.[]
lower (String.◌∷◌ c s) = String.◌∷◌ (lower_char c) (lower s)

unfoldable pub slugify : String → String
unfolding collapse lstrip rstrip lower
slugify value =
    let slug = lower (rstrip (lstrip (collapse false value))) in
    if slug == "" then "unnamed" else slug

slug_test : slugify "OpenAI/GPT 5.6 (Luna)" ≡ "openai-gpt-5-6-luna"
unfolding slugify
slug_test = refl

slug_empty : slugify "---" ≡ "unnamed"
unfolding slugify
slug_empty = refl
