-- ===== src/Errors/Mapper.antt =====
-- `mapResponseError` and `mapByStatusCode` of packages/js/client/src/errors/error-mapper.ts.
pub mod Kept
use bfw_engine.Common.{
  String, ℕ, List, [], ◌∷◌, Option, none, some, lookup, eqb, is_some, if◌then◌else◌,
}
use bfw_engine.Errors.Types.{ErrorClass, no_details, Body, BfwEngineError, Builder}
use bfw_engine.Errors.Plain.{
  super, not_found_error, bad_request_error, conflict_error, internal_engine_error,
}
use bfw_engine.Errors.Detailed.{
  unauthorized_error, forbidden_error, validation_error, engine_at_capacity_error,
}
use bfw_engine.Errors.Coercions.{
  body_field, text_or, text_or_null, number_or_zero, number_or_null, array_or_empty, resource_kind,
}
use bfw_engine.Errors.Codes.{error_codes}

unfoldable pub map_by_error_code : (error_code message : String) → Body → Option BfwEngineError
map_by_error_code error_code message body = elim (lookup error_code error_codes) [
  | none ↦ none
  | some build ↦ some (build error_code message body)
]

-- The cases of `mapByStatusCode`.
abbrev pub status_codes : List (ℕ × Builder)
status_codes =
    (401, λ error_code message body. unauthorized_error (text_or_null body "message") body)
    ∷ (
      403,
      λ error_code message body.
          forbidden_error (text_or body "requiredClaim" "") (text_or body "requiredValue" "")
            (resource_kind body) message body,
    )
    ∷ (404, λ error_code message body. not_found_error message body)
    ∷ (400, λ error_code message body. bad_request_error message body)
    ∷ (409, λ error_code message body. conflict_error message body)
    ∷ (
      422,
      λ error_code message body.
          validation_error message (array_or_empty body "failures") body
            (if is_some (body_field body "error") then some error_code else none),
    )
    ∷ (500, λ error_code message body. internal_engine_error message body)
    ∷ (
      503,
      λ error_code message body.
          engine_at_capacity_error (number_or_zero body "active") (number_or_null body "limit")
            (number_or_zero body "retryAfterSeconds") message body,
    )
    ∷ []

-- the case of a number
abbrev pub case_of : ℕ → List (ℕ × Builder) → Option Builder
case_of status [] = none
case_of status ((n, build) ∷ rest) = if eqb n status then some build else case_of status rest

unfoldable pub map_by_status_code :
    (status : ℕ) (error_code message : String) → Body → Option BfwEngineError
map_by_status_code status error_code message body = elim (case_of status status_codes) [
  | none ↦ none
  | some build ↦ some (build error_code message body)
]

abbrev pub code_of : Body → String
code_of body = text_or body "error" "unknown"

abbrev pub message_of : Body → String
message_of body = text_or body "message" (code_of body)

unfoldable pub map_response_error : (status : ℕ) → Body → BfwEngineError
unfolding map_by_error_code map_by_status_code text_or
map_response_error status body = elim (map_by_error_code (code_of body) (message_of body) body) [
  | some domain_error ↦ domain_error
  | none ↦ elim (map_by_status_code status (code_of body) (message_of body) body) [
    | some status_error ↦ status_error
    | none ↦ super ErrorClass.base status (code_of body) no_details (message_of body) body
  ]
]
