-- ===== src/Errors/Mapper/Kept.antt =====
-- What every error of `mapResponseError` in packages/js/client/src/errors/error-mapper.ts keeps of the
-- response.
use bfw_engine.Common.{
  eqb-true, String, ℕ, true, List, [], ◌∷◌, none, some, lookup, eqb, ◌==◌, Bool-cases, Option-cases,
  inl, inr, is_some, ◌≡◌, refl, ap,
}
use mathlib.Core.Option.{some-injective}
use bfw_engine.Errors.Types.{Body, Builder}
use bfw_engine.Errors.Codes.{error_codes}
use bfw_engine.Errors.Mapper.{
  map_by_error_code, status_codes, case_of, map_by_status_code, code_of, message_of,
  map_response_error,
}

-- a builder that puts the body in its place
abbrev IsKeeping : Builder → Type 0
IsKeeping build =
    ◌≡◌ {A = String → String → Body → Body} (λ c m body. (build c m body).raw_body)
      (λ c m body. body)

-- a builder of errors with one status code
abbrev HasStatus : ℕ → Builder → Type 0
HasStatus n build =
    ◌≡◌ {A = String → String → Body → ℕ} (λ c m body. (build c m body).status_code) (λ c m body. n)

data AllKeep : List (String × Builder) → Type 0 where
  end : AllKeep []
  more :
      {code : String} {build : Builder} {rest : List (String × Builder)}
      → IsKeeping build
      → AllKeep rest
      → AllKeep ((code, build) ∷ rest)

data AllAgree : List (ℕ × Builder) → Type 0 where
  last : AllAgree []
  next :
      {n : ℕ} {build : Builder} {rest : List (ℕ × Builder)}
      → IsKeeping build
      → HasStatus n build
      → AllAgree rest
      → AllAgree ((n, build) ∷ rest)

error_codes-AllKeep : AllKeep error_codes
error_codes-AllKeep = search (more, end) depth 200 fits 100000

status_codes-AllAgree : AllAgree status_codes
status_codes-AllAgree = search (next, last) depth 40

lookup-IsKeeping :
    {table : List (String × Builder)}
    → AllKeep table
    → (code : String) (build : Builder) → lookup code table ≡ some build
    → IsKeeping build
lookup-IsKeeping end code build e = cc
lookup-IsKeeping (more {code = c} {build = b} {rest} keeps others) code build e =
    elim (Bool-cases (c == code)) [
      | inl same ↦ rw (← some-injective _ _ (rw same at e)) keeps
      | inr other ↦ lookup-IsKeeping others code build (rw other at e)
    ]

case_of-agrees :
    {table : List (ℕ × Builder)}
    → AllAgree table
    → (status : ℕ) (build : Builder) → case_of status table ≡ some build
    → IsKeeping build × HasStatus status build
case_of-agrees last status build e = cc
case_of-agrees (next {n} {build = b} {rest} keeps has others) status build e =
    elim (Bool-cases (eqb n status)) [
      | inl same ↦ rw (← eqb-true n status same, ← some-injective _ _ (rw same at e)) (keeps, has)
      | inr other ↦ case_of-agrees others status build (rw other at e)
    ]

-- Every error carries the whole body of the response, whichever of the three stages makes it.
pub map_response_error-raw_body :
    (status : ℕ) (body : Body) → (map_response_error status body).raw_body ≡ body
unfolding map_response_error map_by_error_code map_by_status_code
map_response_error-raw_body status body = elim (Option-cases (lookup (code_of body) error_codes)) [
  | inr (build, e) ↦
      rw (map_response_error, e)
        (ap (λ (f : String → String → Body → Body). f (code_of body) (message_of body) body)
          (lookup-IsKeeping error_codes-AllKeep (code_of body) build e))
  | inl e ↦ elim (Option-cases (case_of status status_codes)) [
    | inl f ↦ rw (map_response_error, e, f) refl
    | inr (build, f) ↦
        rw (map_response_error, e, f)
          (ap (λ (g : String → String → Body → Body). g (code_of body) (message_of body) body)
            (case_of-agrees status_codes-AllAgree status build f).0)
  ]
]

-- If the code of a response is no known one, the error has the status of the response, for those that
-- have a class of their own and for all others.
pub map_response_error-status_code :
    (status : ℕ) (body : Body)
    → lookup (code_of body) error_codes ≡ none
    → (map_response_error status body).status_code ≡ status
unfolding map_response_error map_by_error_code map_by_status_code
map_response_error-status_code status body e = elim (Option-cases (case_of status status_codes)) [
  | inl f ↦ rw (map_response_error, e, f) refl
  | inr (build, f) ↦
      rw (map_response_error, e, f)
        (ap (λ (g : String → String → Body → ℕ). g (code_of body) (message_of body) body)
          (case_of-agrees status_codes-AllAgree status build f).1)
]

-- If the code of a response is a known one, the error is the same for every status.
pub map_response_error-any_status :
    (one other : ℕ) (body : Body)
    → is_some (lookup (code_of body) error_codes) ≡ true
    → map_response_error one body ≡ map_response_error other body
unfolding map_response_error map_by_error_code
map_response_error-any_status one other body h =
    elim (Option-cases (lookup (code_of body) error_codes)) [
      | inl e ↦ cc (rw e at h)
      | inr (build, e) ↦ rw (map_response_error, e) refl
    ]
