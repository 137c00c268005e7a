-- ===== src/Json/Characters.antt =====
-- What `JSON.parse` makes of single characters: the units of a string, escapes, and numerals.
use Prim.Native.String.{[], ◌∷◌}
use bfw_engine.Common.{
  Char, code, Bool, true, false, ℕ, ◌+◌, ◌-◌, ◌/◌, ◌%◌, List, [], ◌∷◌, ◌&&◌, ◌||◌, Option, none,
  some, leb, ltb, eqb, if◌then◌else◌, is_digit,
}

-- Where a numeral stands: what may follow, and whether it may end.
pub data Numeral : Type 0 where
  minus leading_zero digits point fraction exponent exponent_sign exponent_digits : Numeral

abbrev pub units : Char → List ℕ
units ch =
    let c = code ch in
    if ltb c 0x10000
    then c ∷ []
    else (0xd800 + (c - 0x10000) / 0x400) ∷ (0xdc00 + (c - 0x10000) % 0x400) ∷ []

abbrev pub is_blank : ℕ → Bool
is_blank c = eqb c 32 || eqb c 9 || eqb c 10 || eqb c 13

abbrev pub next_numeral : Numeral → ℕ → Option Numeral
next_numeral minus c =
    if eqb c b'0' then some leading_zero else if is_digit c then some digits else none
next_numeral leading_zero c =
    if eqb c b'.' then some point else if eqb c b'e' || eqb c b'E' then some exponent else none
next_numeral digits c =
    if is_digit c
    then some digits
    else if eqb c b'.'
    then some point
    else if eqb c b'e' || eqb c b'E'
    then some exponent
    else none
next_numeral point c = if is_digit c then some fraction else none
next_numeral fraction c =
    if is_digit c then some fraction else if eqb c b'e' || eqb c b'E' then some exponent else none
next_numeral exponent c =
    if eqb c b'+' || eqb c b'-'
    then some exponent_sign
    else if is_digit c
    then some exponent_digits
    else none
next_numeral exponent_sign c = if is_digit c then some exponent_digits else none
next_numeral exponent_digits c = if is_digit c then some exponent_digits else none

abbrev pub may_end : Numeral → Bool
may_end leading_zero = true
may_end digits = true
may_end fraction = true
may_end exponent_digits = true
may_end _ = false

abbrev pub escaped : ℕ → Option ℕ
escaped c =
    if eqb c b'"' || eqb c b'\\' || eqb c b'/'
    then some c
    else if eqb c b'b'
    then some 8
    else if eqb c b'f'
    then some 12
    else if eqb c b'n'
    then some 10
    else if eqb c b'r'
    then some 13
    else if eqb c b't'
    then some 9
    else none

abbrev pub hex_digit : ℕ → Option ℕ
hex_digit c =
    if is_digit c
    then some (c - b'0')
    else if leb b'a' c && leb c b'f'
    then some (c - 87)
    else if leb b'A' c && leb c b'F'
    then some (c - 55)
    else none
