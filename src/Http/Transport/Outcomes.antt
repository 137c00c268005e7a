-- ===== src/Http/Transport/Outcomes.antt =====
-- How a request of packages/js/client/src/http/transport.ts fails.
use bfw_engine.Common.{
  String, ℕ, false, [], ◌∷◌, Option, none, some, ◌&&◌, Bool-cases, inl, inr, ◌≡◌, refl,
}
use bfw_engine.Graphql.Values.{Value}
use bfw_engine.Errors.Types.{object_body, BfwEngineError}
use bfw_engine.Errors.Coercions.{text_or}
use bfw_engine.Errors.Mapper.{map_response_error}
use bfw_engine.Errors.Mapper.Kept.{map_response_error-status_code}
use bfw_engine.Http.Transport.{
  Fetch, RequestOptions, Response, thrown, ok, request, build_headers, handle_response,
  throw_mapped, read_body, get, head, head_method, get_method, is_expected, check_status,
}

unreadable :
    (response : Response)
    → ok response ≡ false
    → response.json ≡ none
    → (e : BfwEngineError) × (handle_response response ≡ thrown e)
      × (e.status_code ≡ response.status)
unfolding handle_response throw_mapped read_body text_or
unreadable response bad unread =
    let body = object_body (("error", Value.text "unknown") ∷ []) in
    (
      map_response_error response.status body,
      rw (handle_response, bad, unread) refl,
      map_response_error-status_code response.status body refl,
    )

-- If a GET request is answered with a status outside 200 to 299 and a body that is not JSON, it throws an
-- error with the status of the response.
pub get-unreadable :
    (fetch : Fetch) (base_url token path : String) (options : RequestOptions) (response : Response)
    → fetch (request fetch base_url token get_method path (build_headers token options) none)
      ≡ some response
    → ok response ≡ false
    → response.json ≡ none
    → (e : BfwEngineError) × (get fetch base_url token path options ≡ thrown e)
      × (e.status_code ≡ response.status)
unfolding get
get-unreadable fetch base_url token path options response answered bad unread =
    rw (get, answered) (unreadable response bad unread)

rejected :
    (fetch : Fetch) (base_url token : String) (expect : Option ℕ) (response : Response)
    → is_expected fetch base_url token expect response.status && ok response ≡ false
    → (e : BfwEngineError) × (check_status fetch base_url token expect response ≡ thrown e)
      × (e.status_code ≡ response.status)
unfolding text_or
rejected fetch base_url token expect response h =
    elim (Bool-cases (is_expected fetch base_url token expect response.status)) [
      | inl e ↦ (
        map_response_error response.status (object_body (("error", Value.text "unknown") ∷ [])),
        rw (check_status, e, rw e at h) refl,
        map_response_error-status_code response.status
            (object_body (("error", Value.text "unknown") ∷ [])) refl,
      )
      | inr e ↦ (
        map_response_error response.status
            (object_body (("error", Value.text "unexpected_status") ∷ [])),
        rw (check_status, e) refl,
        map_response_error-status_code response.status
            (object_body (("error", Value.text "unexpected_status") ∷ [])) refl,
      )
    ]

-- A HEAD request that is answered with a status that is not the expected one, where one is expected, or
-- that lies outside 200 to 299, throws an error with the status of the response.
pub head-rejected :
    (fetch : Fetch) (base_url token path : String) (options : RequestOptions) (expect : Option ℕ)
    (response : Response)
    → fetch (request fetch base_url token head_method path (build_headers token options) none)
      ≡ some response
    → is_expected fetch base_url token expect response.status && ok response ≡ false
    → (e : BfwEngineError) × (head fetch base_url token path options expect ≡ thrown e)
      × (e.status_code ≡ response.status)
unfolding head
head-rejected fetch base_url token path options expect response answered h =
    rw (head, answered) (rejected fetch base_url token expect response h)
