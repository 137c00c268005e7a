-- ===== src/Errors/Tests.antt =====
-- Concrete responses for packages/js/client/src/errors/error-mapper.ts.
use bfw_engine.Common.{false, [], ◌∷◌, none, ◌≡◌, refl}
use bfw_engine.Graphql.Values.{Value, text, null, number, array, nil, cons}
use bfw_engine.Errors.Types.{ErrorClass, Body, object_body, capacity}
use bfw_engine.Errors.Coercions.{number_or_zero, number_or_null, text_or, numeral_of, text_of}
use bfw_engine.Errors.Mapper.{map_response_error}
use bfw_engine.Errors.Mapper.Kept.{
  map_response_error-raw_body, map_response_error-status_code, map_response_error-any_status,
}

abbrev seven : Value
seven = number (record { negative = false; magnitude = 7 })

abbrev full : Body
full = object_body (("error", text "engine_at_capacity") ∷ ("active", seven) ∷ ("limit", null) ∷ [])

maps_capacity :
    ((map_response_error 429 full).name ≡ ErrorClass.engine_at_capacity)
    × ((map_response_error 429 full).status_code ≡ 503)
    × ((map_response_error 429 full).details ≡ capacity "7" none "0")
    × ((map_response_error 429 full).message ≡ "engine_at_capacity")
unfolding map_response_error number_or_zero number_or_null
maps_capacity = (refl, refl, refl, refl)

coerces :
    (numeral_of (text " 12 ") ≡ "12")
    × (numeral_of (text "12px") ≡ "NaN")
    × (numeral_of (array (cons seven nil)) ≡ "7")
    × (text_of (array (cons seven (cons null (cons (text "x") nil)))) ≡ "7,,x")
unfolding numeral_of text_of
coerces = (refl, refl, refl, refl)

abbrev unknown : Body
unknown = object_body (("error", text "teapot") ∷ ("message", text "no coffee") ∷ [])

map_response_error-raw_body_example : (map_response_error 418 unknown).raw_body ≡ unknown
map_response_error-raw_body_example = map_response_error-raw_body 418 unknown

map_response_error-status_code_example : (map_response_error 409 unknown).status_code ≡ 409
unfolding text_or
map_response_error-status_code_example = map_response_error-status_code 409 unknown refl

map_response_error-any_status_example : map_response_error 503 full ≡ map_response_error 500 full
unfolding text_or
map_response_error-any_status_example = map_response_error-any_status 503 500 full refl
