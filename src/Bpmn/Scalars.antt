-- ===== src/Bpmn/Scalars.antt =====
-- The scalar readers of packages/js/sdk/src/bpmn/parser.ts: embedded JSON, `parseInt`, and the
-- leading numerals of attributes. Integers are exact, where a JavaScript number rounds past 2^53;
-- a decimal number is kept as the numeral that `Number` is given.
use Prim.Native.String
use Prim.Native.String.{[], ◌∷◌}
use bfw_engine.Common.{
  String, code, Bool, true, false, ℕ, ◌+◌, ◌*◌, ◌-◌, ◌||◌, Option, none, some, eqb, if◌then◌else◌,
  is_digit, trim_start, ◌==◌, ◌≡◌, refl,
}
use bfw_engine.Json.{Json, is_object}
use bfw_engine.Json.Parse.{parse}

-- An integer with its sign, as `parseInt` keeps a negative zero apart.
pub record Integer : Type 0 where
  pub negative : Bool
  pub magnitude : ℕ

abbrev only_object : Json → Option Json
only_object v = if is_object v then some v else none

unfoldable pub parse_json_text : String → Option Json
unfolding parse
parse_json_text source =
    if source == "" then none else elim (parse source) [ none ↦ none | some v ↦ only_object v ]

-- The digits at the front of a text, as a number; `none` if there is no digit.
read_digits : String → Option ℕ → Option ℕ
read_digits [] found = found
read_digits (c ∷ s) found =
    let d = code c - b'0' in
    let more = read_digits s (some (elim found [ none ↦ d | some n ↦ n * 10 + d ])) in
    if is_digit (code c) then more else found

abbrev signed : Bool → Option ℕ → Option Integer
signed sign none = none
signed sign (some n) = some (record { negative = sign; magnitude = n })

-- `parseInt(text, 10)`, with `none` for NaN
unfoldable pub parse_int_value : String → Option Integer
unfolding read_digits trim_start
parse_int_value source = elim (trim_start source) [
  | [] ↦ none
  | c ∷ s ↦
      if eqb (code c) b'-'
      then signed true (read_digits s none)
      else if eqb (code c) b'+'
      then signed false (read_digits s none)
      else signed false (read_digits (c ∷ s) none)
]

-- A text split behind the digits at its front.
unfoldable pub span_digits : String → String × String
span_digits [] = ([], [])
span_digits (c ∷ s) =
    let (ds, rest) = span_digits s in if is_digit (code c) then (c ∷ ds, rest) else ([], c ∷ s)

abbrev pub split_sign : String → String × String
split_sign [] = ([], [])
split_sign (c ∷ s) = if eqb (code c) b'+' || eqb (code c) b'-' then (c ∷ [], s) else ([], c ∷ s)

-- `(?:\.\d+)?`
match_fraction : String → String × String
unfolding span_digits
match_fraction [] = ([], [])
match_fraction (c ∷ s) =
    let (ds, rest) = span_digits s in
    if eqb (code c) b'.' then (if ds == "" then ([], c ∷ s) else (c ∷ ds, rest)) else ([], c ∷ s)

-- `(?:[eE][+-]?\d+)?`
unfoldable pub match_exponent : String → String
unfolding span_digits
match_exponent [] = []
match_exponent (c ∷ s) =
    let (sign, s') = split_sign s in
    let ds = (span_digits s').0 in
    if eqb (code c) b'e' || eqb (code c) b'E'
    then (if ds == "" then [] else c ∷ String.◌++◌ sign ds)
    else []

-- The two patterns of `parseLeadingNumber`.
pub data Pattern : Type 0 where
  leading_float leading_integer : Pattern

unfoldable pub match_pattern : Pattern → String → Option String
unfolding span_digits match_fraction match_exponent
match_pattern pattern source =
    let (sign, s) = split_sign source in
    let (ds, rest) = span_digits s in
    let (frac, rest') = match_fraction rest in
    let whole = String.◌++◌ sign ds in
    if ds == ""
    then none
    else some (elim pattern [
      | leading_integer ↦ whole
      | leading_float ↦ String.◌++◌ whole (String.◌++◌ frac (match_exponent rest'))
    ])

unfoldable pub parse_leading_number : Option String → Pattern → Option String
unfolding match_pattern
parse_leading_number none pattern = none
parse_leading_number (some source) pattern = match_pattern pattern source

abbrev int : Bool → ℕ → Option Integer
int sign n = some (record { negative = sign; magnitude = n })

reads_integers :
    (parse_int_value " 42px" ≡ int false 42)
    × (parse_int_value "-7.9" ≡ int true 7)
    × (parse_int_value "px" ≡ none)
    × (parse_int_value "+" ≡ none)
unfolding parse_int_value
reads_integers = (refl, refl, refl, refl)

reads_numerals :
    (parse_leading_number (some "92.5%") leading_float ≡ some "92.5")
    × (parse_leading_number (some "-1e+3x") leading_float ≡ some "-1e+3")
    × (parse_leading_number (some "7.e2") leading_float ≡ some "7")
    × (parse_leading_number (some " 7") leading_integer ≡ none)
unfolding parse_leading_number
reads_numerals = (refl, refl, refl, refl)
