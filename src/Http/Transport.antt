-- ===== src/Http/Transport.antt =====
-- `HttpTransport` of packages/js/client/src/http/transport.ts. `fetch` and the resolved token are
-- arguments. A request carries the value that `JSON.stringify` writes, and a response the value that its
-- text holds as JSON, if it holds one. A request that is not answered is `none`.
pub mod Sent
pub mod Outcomes
use Prim.Native.String
use bfw_engine.Common.{
  String, ℕ, Bool, true, false, List, [], ◌∷◌, Option, none, some, set, eqb, leb, ◌&&◌, not,
  or_default, if◌then◌else◌,
}
use bfw_engine.Graphql.Values.{
  Value, undefined, null, boolean, number, text, array, object, Members, end, member, entries,
  indexed,
}
use bfw_engine.Errors.Types.{
  Body, object_body, array_body, text_body, number_body, boolean_body, BfwEngineError,
}
use bfw_engine.Errors.Mapper.{map_response_error}

pub data Method : Type 0 where
  get_method post_method put_method delete_method head_method : Method

abbrev pub Headers : Type 0
Headers = List (String × String)

pub record RequestOptions : Type 0 where
  pub skip_auth : Bool
  pub headers : Headers

pub record Request : Type 0 where
  pub method : Method
  pub url : String
  pub headers : Headers
  pub body : Option Value

pub record Response : Type 0 where
  pub status : ℕ
  pub json : Option Value
  pub content : String

abbrev pub Fetch : Type 0
Fetch = Request → Option Response

-- What a call ends with: a value, an error that the client makes, or one that the language throws.
pub data HttpOutcome (A : Type 0) : Type 0 where
  returned : A → HttpOutcome A
  thrown : BfwEngineError → HttpOutcome A
  type_error syntax_error fetch_error : HttpOutcome A

-- `response.ok`
abbrev pub ok : Response → Bool
ok response = leb 200 response.status && leb response.status 299

-- `Object.assign(headers, extra)`
abbrev pub assign_headers : Headers → Headers → Headers
assign_headers headers [] = headers
assign_headers headers ((name, value) ∷ rest) = assign_headers (set name value headers) rest

unfoldable pub build_headers : (token : String) → RequestOptions → Headers
build_headers token options =
    assign_headers
      (if options.skip_auth then [] else ("Authorization", String.◌++◌ "Bearer " token) ∷ [])
      options.headers

-- The body that `mapResponseError` is given; `none` where reading a field of it throws.
unfoldable pub read_body : Value → Option Body
read_body undefined = none
read_body null = none
read_body (object members) = some (object_body (entries members))
read_body (array values) = some (array_body values)
read_body (text s) = some (text_body s)
read_body (number n) = some (number_body n)
read_body (boolean b) = some (boolean_body b)

-- `response.json().catch(() => ({ error: 'unknown' }))`
abbrev pub error_value : Response → Value
error_value response = or_default response.json (object (member "error" (text "unknown") end))

-- `throw mapResponseError(response.status, body)`
unfoldable pub throw_mapped : {A : Type 0} → Response → HttpOutcome A
unfolding read_body map_response_error
throw_mapped response = elim (read_body (error_value response)) [
  | none ↦ type_error
  | some body ↦ thrown (map_response_error response.status body)
]

-- `return response.json()`
abbrev pub read_json : Response → HttpOutcome Value
read_json response = elim response.json [ none ↦ syntax_error | some value ↦ returned value ]

unfoldable pub handle_response : Response → HttpOutcome Value
unfolding throw_mapped
handle_response response =
    if ok response
    then (if eqb response.status 204 then returned undefined else read_json response)
    else throw_mapped response

-- `await fetch(…)`, and what is done with the response
abbrev pub answer : {A : Type 0} → Option Response → (Response → HttpOutcome A) → HttpOutcome A
answer none handle = fetch_error
answer (some response) handle = handle response

module _ (fetch : Fetch) (base_url token : String) where
  abbrev pub request : Method → (path : String) → Headers → Option Value → Request
  request method path headers body = record {
    method = method;
    url = String.◌++◌ base_url path;
    headers = headers;
    body = body;
  }

  unfoldable pub get : (path : String) → RequestOptions → HttpOutcome Value
  unfolding build_headers handle_response
  get path options =
      answer (fetch (request get_method path (build_headers token options) none)) handle_response

  -- the text of a response, `null` for a 404
  abbrev pub read_text : Response → HttpOutcome (Option String)
  read_text response =
      if eqb response.status 404
      then returned none
      else if ok response
      then returned (some response.content)
      else throw_mapped response

  unfoldable pub get_text : (path : String) → RequestOptions → HttpOutcome (Option String)
  unfolding build_headers throw_mapped
  get_text path options =
      answer (fetch (request get_method path (build_headers token options) none)) read_text

  abbrev pub json_headers : RequestOptions → Headers
  json_headers options = set "Content-Type" "application/json" (build_headers token options)

  unfoldable pub post : (path : String) → (body : Option Value) → RequestOptions → HttpOutcome Value
  unfolding build_headers handle_response
  post path body options =
      answer (fetch (request post_method path (json_headers options) body)) handle_response

  -- `await this.handleResponse<void>(response)`
  abbrev pub forget_value : HttpOutcome Value → HttpOutcome Unit
  forget_value (returned value) = returned tt
  forget_value (thrown e) = thrown e
  forget_value type_error = type_error
  forget_value syntax_error = syntax_error
  forget_value fetch_error = fetch_error

  abbrev pub put_headers : Option Value → RequestOptions → Headers
  put_headers none options = build_headers token options
  put_headers (some value) options = json_headers options

  unfoldable pub put : (path : String) → (body : Option Value) → RequestOptions → HttpOutcome Unit
  unfolding build_headers handle_response
  put path body options =
      forget_value
        (answer (fetch (request put_method path (put_headers body options) body)) handle_response)

  unfoldable pub delete : (path : String) → RequestOptions → HttpOutcome Unit
  unfolding build_headers handle_response
  delete path options = forget_value (
      answer (fetch (request delete_method path (build_headers token options) none))
        handle_response)

  -- the error of a status with a body of the client's own
  abbrev pub throw_status : ℕ → (code : String) → HttpOutcome Unit
  throw_status status code =
      thrown (map_response_error status (object_body (("error", text code) ∷ [])))

  abbrev pub is_expected : Option ℕ → ℕ → Bool
  is_expected none status = true
  is_expected (some n) status = eqb status n

  abbrev pub check_status : Option ℕ → Response → HttpOutcome Unit
  check_status expect response =
      if is_expected expect response.status
      then (if ok response then returned tt else throw_status response.status "unknown")
      else throw_status response.status "unexpected_status"

  unfoldable pub head : (path : String) → RequestOptions → (expect : Option ℕ) → HttpOutcome Unit
  unfolding build_headers map_response_error
  head path options expect =
      answer (fetch (request head_method path (build_headers token options) none))
        (check_status expect)
