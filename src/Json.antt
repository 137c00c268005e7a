-- ===== src/Json.antt =====
-- The values of `JSON.parse` (a function of the language that the parsers call). The units of a
-- string are UTF-16 code units, as in JavaScript, and a number is kept as the numeral that was read.
pub mod Characters
pub mod Parse
use bfw_engine.Common.{String, Bool, true, false, ℕ, List, [], ◌∷◌, ◌&&◌, eqb, if◌then◌else◌}

mutual
  pub data Json : Type 0 where
    null : Json
    boolean : Bool → Json
    number : String → Json
    text : List ℕ → Json
    array : Elements → Json
    object : Members → Json

  pub data Elements : Type 0 where
    nil : Elements
    cons : Json → Elements → Elements

  pub data Members : Type 0 where
    end : Members
    member : List ℕ → Json → Members → Members

-- `array.push(value)`
abbrev pub push : Elements → Json → Elements
push nil v = cons v nil
push (cons w ws) v = cons w (push ws v)

abbrev pub same_units : List ℕ → List ℕ → Bool
same_units [] [] = true
same_units (x ∷ xs) (y ∷ ys) = eqb x y && same_units xs ys
same_units _ _ = false

-- A repeated key takes the later value and keeps the earlier place.
abbrev pub set_member : Members → List ℕ → Json → Members
set_member end key v = member key v end
set_member (member k w ms) key v =
    let later = set_member ms key v in
    if same_units k key then member key v ms else member k w later

-- `value !== null && typeof value === 'object'`: arrays pass too
abbrev pub is_object : Json → Bool
is_object (array _) = true
is_object (object _) = true
is_object _ = false

-- `Array.isArray`
abbrev pub is_array : Json → Bool
is_array (array _) = true
is_array _ = false
