-- ===== src/Dmn/Texts.antt =====
-- How packages/js/sdk/src/dmn/parser.ts reads a text character by character: runs of white space,
-- references, and the numeral that `parseFloat` takes, which is kept as a text.
pub mod References
use Prim.Native.String
use Prim.Native.String.{[], ◌∷◌}
use bfw_engine.Common.{
  String, code, Bool, true, false, Option, none, some, eqb, is_space, trim, trim_start, is_some,
  ◌==◌, ◌&&◌, if◌then◌else◌, ◌≡◌, refl,
}
use bfw_engine.Bpmn.Scalars.{span_digits, split_sign, match_exponent}
use bfw_engine.Bpmn.Doctype.{drop_prefix}

-- `raw === null || raw === ''`
abbrev pub present : Option String → Option String
present none = none
present (some raw) = if raw == "" then none else some raw

-- `replace(/\s+/g, by)`: the Boolean says that a space has just been passed.
unfoldable pub replace_spaces : String → Bool → String → String
replace_spaces by passed [] = []
replace_spaces by passed (c ∷ s) =
    let inside = replace_spaces by true s in
    let outside = replace_spaces by false s in
    if is_space (code c) then (if passed then inside else String.◌++◌ by inside) else c ∷ outside

-- `startsWith('#') ? slice(1) : …`
unfoldable pub drop_hash : String → String
drop_hash [] = []
drop_hash (c ∷ s) = if eqb (code c) b'#' then s else c ∷ s

unfoldable pub fragment_id_from_href : Option String → Option String
unfolding trim drop_hash
fragment_id_from_href href = elim (present href) [
  | none ↦ none
  | some raw ↦ some (drop_hash (trim raw))
]

-- The digits behind a point, with the point, and what follows. A point without digits belongs to
-- the numeral if digits stand before it.
abbrev float_fraction : (whole : String) → String → String × String
float_fraction whole [] = ([], [])
float_fraction whole (c ∷ s) =
    let (ds, rest) = span_digits s in
    if eqb (code c) b'.' && not_both_empty whole ds then (c ∷ ds, rest) else ([], c ∷ s)
  where
    not_both_empty : String → String → Bool
    not_both_empty whole ds = if whole == "" then (if ds == "" then false else true) else true

abbrev starts_infinity : String → Bool
starts_infinity s = is_some (drop_prefix "Infinity" s)

-- `Number.parseFloat(text)`, with `none` for NaN
unfoldable pub parse_float : String → Option String
unfolding trim_start span_digits match_exponent
parse_float source =
    let (sign, s) = split_sign (trim_start source) in
    let (ds, rest) = span_digits s in
    let (frac, rest') = float_fraction ds rest in
    let digits = String.◌++◌ ds frac in
    if starts_infinity s
    then some (String.◌++◌ sign "Infinity")
    else if digits == ""
    then none
    else some (String.◌++◌ sign (String.◌++◌ digits (match_exponent rest')))

reads_floats :
    (parse_float " 12.5px" ≡ some "12.5")
    × (parse_float "-.5e3" ≡ some "-.5e3")
    × (parse_float "7.e2" ≡ some "7.e2")
    × (parse_float "." ≡ none)
    × (parse_float "1e" ≡ some "1")
    × (parse_float "+Infinity1" ≡ some "+Infinity")
unfolding parse_float
reads_floats = (refl, refl, refl, refl, refl, refl)

reads_references :
    (fragment_id_from_href (some " #decision_1 ") ≡ some "decision_1")
    × (fragment_id_from_href (some "other.dmn#x") ≡ some "other.dmn#x")
    × (fragment_id_from_href (some "") ≡ none)
unfolding fragment_id_from_href
reads_references = (refl, refl, refl)

squeezes : replace_spaces "_" false "RULE \t ORDER" ≡ "RULE_ORDER"
unfolding replace_spaces
squeezes = refl
