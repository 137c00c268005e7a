-- ===== src/Json/Parse.antt =====
-- `JSON.parse`, as an automaton with a stack that reads one character at a time; `none` stands for
-- the `SyntaxError` that it throws.
use Prim.Native.String
use Prim.Native.String.{[], ◌∷◌}
use bfw_engine.Common.{
  String, Char, code, true, false, ℕ, ◌+◌, ◌*◌, ◌-◌, List, [], ◌∷◌, ◌++◌, Option, none, some, leb,
  ltb, eqb, if◌then◌else◌, is_digit, ◌≡◌, refl,
}
use bfw_engine.Json.Characters.{
  Numeral, minus, leading_zero, digits, units, is_blank, next_numeral, may_end, escaped, hex_digit,
}
use bfw_engine.Json.{
  Json, null, boolean, number, text, array, object, Elements, nil, cons, Members, end, member, push,
  set_member,
}

-- An open array, or an open object with the key whose value is read.
pub data Frame : Type 0 where
  in_array : Elements → Frame
  in_object : Members → List ℕ → Frame

pub data Mode : Type 0 where
  value first_element : Mode
  first_key next_key : Members → Mode
  colon : Members → List ℕ → Mode
  after done : Json → Mode
  -- in a string: the members before it, if it is a key, and the units read
  in_text escape : Option Members → List ℕ → Mode
  hex : Option Members → List ℕ → (left found : ℕ) → Mode
  word : (left : String) → Json → Mode
  numeral : Numeral → String → Mode

pub record State : Type 0 where
  pub mode : Mode
  pub stack : List Frame

abbrev at : Mode → List Frame → Option State
at m st = some (record { mode = m; stack = st })

abbrev append_char : String → Char → String
append_char s c = String.◌++◌ s (c ∷ [])

-- A complete value joins the open array or object.
abbrev complete : Json → List Frame → Option State
complete v [] = at (done v) []
complete v (in_array vs ∷ st) = at (after (array (push vs v))) st
complete v (in_object ms k ∷ st) = at (after (object (set_member ms k v))) st

-- A complete string is a key or a value.
abbrev close_text : Option Members → List ℕ → List Frame → Option State
close_text none us st = complete (text us) st
close_text (some ms) us st = at (colon ms us) st

abbrev start : Char → List Frame → Option State
start ch st =
    let c = code ch in
    if is_blank c
    then at value st
    else if eqb c b'"'
    then at (in_text none []) st
    else if eqb c b'{'
    then at (first_key end) st
    else if eqb c b'['
    then at first_element st
    else if eqb c b't'
    then at (word "rue" (boolean true)) st
    else if eqb c b'f'
    then at (word "alse" (boolean false)) st
    else if eqb c b'n'
    then at (word "ull" null) st
    else if eqb c b'-'
    then at (numeral minus (ch ∷ [])) st
    else if eqb c b'0'
    then at (numeral leading_zero (ch ∷ [])) st
    else if is_digit c
    then at (numeral digits (ch ∷ [])) st
    else none

-- What may follow a complete value inside an array or object, or after the whole text.
abbrev follow : Json → Char → List Frame → Option State
follow (array vs) ch st =
    let c = code ch in
    if is_blank c
    then at (after (array vs)) st
    else if eqb c b','
    then at value (in_array vs ∷ st)
    else if eqb c b']'
    then complete (array vs) st
    else none
follow (object ms) ch st =
    let c = code ch in
    if is_blank c
    then at (after (object ms)) st
    else if eqb c b','
    then at (next_key ms) st
    else if eqb c b'}'
    then complete (object ms) st
    else none
follow _ ch st = none

abbrev resume : Option State → Char → Option State
resume none ch = none
resume (some s) ch = elim s.mode [
  | after v ↦ follow v ch s.stack
  | done v ↦ if is_blank (code ch) then some s else none
  | _ ↦ none
]

step : Mode → Char → List Frame → Option State
step value ch st = start ch st
step first_element ch st =
    if is_blank (code ch)
    then at first_element st
    else if eqb (code ch) b']'
    then complete (array nil) st
    else start ch (in_array nil ∷ st)
step (first_key ms) ch st =
    if is_blank (code ch)
    then at (first_key ms) st
    else if eqb (code ch) b'"'
    then at (in_text (some ms) []) st
    else if eqb (code ch) b'}'
    then complete (object ms) st
    else none
step (next_key ms) ch st =
    if is_blank (code ch)
    then at (next_key ms) st
    else if eqb (code ch) b'"'
    then at (in_text (some ms) []) st
    else none
step (colon ms k) ch st =
    if is_blank (code ch)
    then at (colon ms k) st
    else if eqb (code ch) b':'
    then at value (in_object ms k ∷ st)
    else none
step (after v) ch st = follow v ch st
step (done v) ch st = if is_blank (code ch) then at (done v) st else none
step (in_text key us) ch st =
    if eqb (code ch) b'"'
    then close_text key us st
    else if eqb (code ch) b'\\'
    then at (escape key us) st
    else if ltb (code ch) 32
    then none
    else at (in_text key (us ++ units ch)) st
step (escape key us) ch st =
    if eqb (code ch) b'u'
    then at (hex key us 4 0) st
    else elim (escaped (code ch)) [ none ↦ none | some u ↦ at (in_text key (us ++ u ∷ [])) st ]
step (hex key us left found) ch st = elim (hex_digit (code ch)) [
  | none ↦ none
  | some d ↦
      let u = found * 16 + d in
      if leb left 1 then at (in_text key (us ++ u ∷ [])) st else at (hex key us (left - 1) u) st
]
step (word [] v) ch st = none
step (word (w ∷ []) v) ch st = if eqb (code ch) (code w) then complete v st else none
step (word (w ∷ x ∷ ws) v) ch st = if eqb (code ch) (code w) then at (word (x ∷ ws) v) st else none
step (numeral n s) ch st = elim (next_numeral n (code ch)) [
  | some m ↦ at (numeral m (append_char s ch)) st
  | none ↦ if may_end n then resume (complete (number s) st) ch else none
]

run : String → State → Option State
run [] s = some s
run (ch ∷ rest) s = elim (step s.mode ch s.stack) [ none ↦ none | some s' ↦ run rest s' ]

finish : Mode → List Frame → Option Json
finish (done v) [] = some v
finish (numeral n s) [] = if may_end n then some (number s) else none
finish _ _ = none

unfoldable pub parse : String → Option Json
unfolding run step finish
parse source = elim (run source (record { mode = value; stack = [] })) [
  | none ↦ none
  | some s ↦ finish s.mode s.stack
]

reads_nested :
    parse "{\"a\": [1.5e3, {\"b\":null}, []], \"a\" : \"x\\u0041\\n\"} "
    ≡ some (object (member (97 ∷ []) (text (120 ∷ 65 ∷ 10 ∷ [])) end))
unfolding parse
reads_nested = refl

reads_array :
    parse " [1.5e3,true,{\"k\":-0}]"
    ≡ some (
        array (
          cons
            (number "1.5e3")
            (cons (boolean true) (cons (object (member (107 ∷ []) (number "-0") end)) nil))))
unfolding parse
reads_array = refl

rejects :
    (parse "" ≡ none)
    × (parse "01" ≡ none)
    × (parse "[1,]" ≡ none)
    × (parse "{\"a\"}" ≡ none)
    × (parse "{} x" ≡ none)
    × (parse "tru" ≡ none)
    × (parse "{\"a\":1}}" ≡ none)
unfolding parse
rejects = (refl, refl, refl, refl, refl, refl, refl)
