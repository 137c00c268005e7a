-- ===== src/Errors/Coercions.antt =====
-- How packages/js/client/src/errors/error-mapper.ts reads the fields of a response body: `String(…)`,
-- `Number(…)` and `Array.isArray(…)`. A number is kept as its numeral. A text of a number may have a sign,
-- a fraction and an exponent; the texts of JavaScript's hexadecimal, octal and binary numbers count as
-- NaN here.
use bfw_engine.Common.{
  String, true, false, List, [], ◌∷◌, Option, none, some, lookup, or_default, trim, decimal, ◌==◌,
  if◌then◌else◌,
}
use bfw_engine.Graphql.Values.{
  Value, undefined, null, boolean, number, text, array, object, Elements, nil, cons, number_text,
  join,
}
use bfw_engine.Dmn.Texts.{parse_float}
use bfw_engine.Errors.Types.{
  ResourceKind, process_resource, process_instance_resource, decision_resource, message_resource,
  signal_resource, Body, own_fields,
}

-- an array element of `join`, where `undefined` and `null` leave nothing
abbrev blank : Value → String → String
blank undefined s = ""
blank null s = ""
blank _ s = s

-- `String(value)`
unfoldable mutual
  unfolding decimal join

  pub text_of : Value → String
  text_of undefined = "undefined"
  text_of null = "null"
  text_of (boolean true) = "true"
  text_of (boolean false) = "false"
  text_of (number n) = number_text n
  text_of (text s) = s
  text_of (array values) = join "," (texts_of values)
  text_of (object members) = "[object Object]"

  pub texts_of : Elements → List String
  texts_of nil = []
  texts_of (cons value rest) = blank value (text_of value) ∷ texts_of rest

-- `Number(text)`: the whole text is a numeral or it is NaN
unfoldable pub numeral_of_text : String → String
unfolding trim parse_float
numeral_of_text s = elim (parse_float (trim s)) [
  | none ↦ if trim s == "" then "0" else "NaN"
  | some numeral ↦ if numeral == trim s then numeral else "NaN"
]

-- `Number(value)`
unfoldable pub numeral_of : Value → String
unfolding decimal numeral_of_text text_of
numeral_of undefined = "NaN"
numeral_of null = "0"
numeral_of (boolean true) = "1"
numeral_of (boolean false) = "0"
numeral_of (number n) = number_text n
numeral_of (text s) = numeral_of_text s
numeral_of (array values) = numeral_of_text (text_of (array values))
numeral_of (object members) = "NaN"

-- A field of the body that is neither missing nor `undefined` nor `null`.
abbrev pub present_value : Option Value → Option Value
present_value none = none
present_value (some undefined) = none
present_value (some null) = none
present_value (some value) = some value

unfoldable pub body_field : Body → String → Option Value
body_field body name = present_value (lookup name (own_fields body))

-- `String(body[name] ?? default)`
unfoldable pub text_or : Body → String → String → String
unfolding body_field text_of
text_or body name default = elim (body_field body name) [
  | none ↦ default
  | some value ↦ text_of value
]

-- `body[name] != null ? String(body[name]) : null`
unfoldable pub text_or_null : Body → String → Option String
unfolding body_field text_of
text_or_null body name = elim (body_field body name) [
  | none ↦ none
  | some value ↦ some (text_of value)
]

-- `Number(body[name] ?? 0)`
unfoldable pub number_or_zero : Body → String → String
unfolding body_field numeral_of
number_or_zero body name = elim (body_field body name) [
  | none ↦ "0"
  | some value ↦ numeral_of value
]

-- `body[name] != null ? Number(body[name]) : null`
unfoldable pub number_or_null : Body → String → Option String
unfolding body_field numeral_of
number_or_null body name = elim (body_field body name) [
  | none ↦ none
  | some value ↦ some (numeral_of value)
]

-- `Array.isArray(body[name]) ? body[name] : []`
unfoldable pub array_or_empty : Body → String → Elements
array_or_empty body name = elim (lookup name (own_fields body)) [
  | some (array values) ↦ values
  | _ ↦ nil
]

-- `body['currentState'] ?? 'unknown'`
unfoldable pub state_of : Body → Value
unfolding body_field
state_of body = or_default (body_field body "currentState") (text "unknown")

abbrev resource_kinds : List (String × ResourceKind)
resource_kinds =
    ("process_instance", process_instance_resource)
    ∷ ("decision", decision_resource)
    ∷ ("message", message_resource)
    ∷ ("signal", signal_resource)
    ∷ []

-- the chain of tests on `body['resource']`
unfoldable pub resource_kind : Body → ResourceKind
resource_kind body = elim (lookup "resource" (own_fields body)) [
  | some (text s) ↦ or_default (lookup s resource_kinds) process_resource
  | _ ↦ process_resource
]
