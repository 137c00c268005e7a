-- ===== src/Http/Transport/Sent.antt =====
-- The headers that packages/js/client/src/http/transport.ts sends.
use Prim.Native.String
use bfw_engine.Common.{
  String, ℕ, Bool, true, false, [], ◌∷◌, Option, none, some, lookup, set, lookup-set, ◌==◌,
  Bool-cases, inl, inr, if◌then◌else◌, ◌≡◌, refl, ◌∙◌, ap,
}
use mathlib.Core.Option.{some-ne-none}
use bfw_engine.Graphql.Values.{Value}
use bfw_engine.Http.Transport
use bfw_engine.Http.Transport.{
  Headers, Method, get_method, post_method, put_method, delete_method, head_method, Request,
  RequestOptions, assign_headers, build_headers, Fetch, json_headers, put_headers, request, answer,
  handle_response, read_text, forget_value, check_status, get_text, post, put, head,
}

lookup-assign_headers :
    (name : String) (extra headers : Headers)
    → lookup name extra ≡ none
    → lookup name (assign_headers headers extra) ≡ lookup name headers
lookup-assign_headers name [] headers h = refl
lookup-assign_headers name ((k, v) ∷ rest) headers h = elim (Bool-cases (k == name)) [
  | inl e ↦ elim (some-ne-none _ (rw e at h)) [ ]
  | inr e ↦
      lookup-assign_headers name rest (set k v headers) (rw e at h)
      ∙ (lookup-set k name v headers ∙ rw e refl)
]

-- the token's header, unless it is left out
abbrev pub bearer : (token : String) → (skip : Bool) → Option String
bearer token skip = if skip then none else some (String.◌++◌ "Bearer " token)

build_headers-bearer :
    (token : String) (options : RequestOptions)
    → lookup "Authorization" options.headers ≡ none
    → lookup "Authorization" (build_headers token options) ≡ bearer token options.skip_auth
unfolding build_headers
build_headers-bearer token options h =
    lookup-assign_headers "Authorization" options.headers _ h ∙ starts options.skip_auth
  where
    starts :
        (skip : Bool)
        → lookup "Authorization"
            (if skip then [] else ("Authorization", String.◌++◌ "Bearer " token) ∷ [])
          ≡ bearer token skip
    starts true = refl
    starts false = refl

json_headers-bearer :
    (fetch : Fetch) (base_url token : String) (options : RequestOptions)
    → lookup "Authorization" options.headers ≡ none
    → lookup "Authorization" (json_headers fetch base_url token options)
      ≡ bearer token options.skip_auth
json_headers-bearer fetch base_url token options h =
    lookup-set "Content-Type" "Authorization" "application/json" (build_headers token options)
    ∙ build_headers-bearer token options h

put_headers-bearer :
    (fetch : Fetch) (base_url token : String) (body : Option Value) (options : RequestOptions)
    → lookup "Authorization" options.headers ≡ none
    → lookup "Authorization" (put_headers fetch base_url token body options)
      ≡ bearer token options.skip_auth
put_headers-bearer fetch base_url token none options h = build_headers-bearer token options h
put_headers-bearer fetch base_url token (some value) options h =
    json_headers-bearer fetch base_url token options h

-- A request with a body says that the body is JSON.
abbrev pub content_type_of : Option Value → Headers → Option String
content_type_of none headers = some "application/json"
content_type_of (some value) headers = lookup "Content-Type" headers

put_headers-content_type :
    (fetch : Fetch) (base_url token : String) (body : Option Value) (options : RequestOptions)
    → content_type_of body (put_headers fetch base_url token body options) ≡ some "application/json"
put_headers-content_type fetch base_url token none options = refl
put_headers-content_type fetch base_url token (some value) options =
    lookup-set "Content-Type" "Content-Type" "application/json" (build_headers token options)

json_headers-content_type :
    (fetch : Fetch) (base_url token : String) (body : Option Value) (options : RequestOptions)
    → content_type_of body (json_headers fetch base_url token options) ≡ some "application/json"
json_headers-content_type fetch base_url token none options = refl
json_headers-content_type fetch base_url token (some value) options =
    lookup-set "Content-Type" "Content-Type" "application/json" (build_headers token options)

-- Nothing of what the six operations give depends on how requests are answered that carry another
-- `Authorization` header than the token's, or one where authentication is skipped, or that have a body
-- without saying that it is JSON: two networks that answer all other requests alike give the same. The
-- caller gives no `Authorization` header of its own.
pub operations-Authorization :
    (fetch other : Fetch) (base_url token : String) (options : RequestOptions)
    → lookup "Authorization" options.headers ≡ none
    → ((sent : Request)
        → lookup "Authorization" sent.headers ≡ bearer token options.skip_auth
        → content_type_of sent.body sent.headers ≡ some "application/json"
        → fetch sent ≡ other sent)
    → (path : String) (body : Option Value) (expect : Option ℕ)
    → (Transport.get fetch base_url token path options
        ≡ Transport.get other base_url token path options)
      × (get_text fetch base_url token path options ≡ get_text other base_url token path options)
      × (post fetch base_url token path body options ≡ post other base_url token path body options)
      × (put fetch base_url token path body options ≡ put other base_url token path body options)
      × (Transport.delete fetch base_url token path options
          ≡ Transport.delete other base_url token path options)
      × (head fetch base_url token path options expect
          ≡ head other base_url token path options expect)
unfolding Transport.get get_text post put Transport.delete head
operations-Authorization fetch other base_url token options h agree path body expect =
    let plain = λ (method : Method).
      agree (request fetch base_url token method path (build_headers token options) none)
        (build_headers-bearer token options h) refl in
    (
      ap (λ r. answer r handle_response) (plain get_method),
      ap (λ r. answer r (read_text fetch base_url token)) (plain get_method),
      ap (λ r. answer r handle_response)
          (agree
            (request fetch base_url token post_method path
              (json_headers fetch base_url token options) body)
            (json_headers-bearer fetch base_url token options h)
            (json_headers-content_type fetch base_url token body options)),
      ap (λ r. forget_value fetch base_url token (answer r handle_response))
          (agree
            (request fetch base_url token put_method path
              (put_headers fetch base_url token body options) body)
            (put_headers-bearer fetch base_url token body options h)
            (put_headers-content_type fetch base_url token body options)),
      ap (λ r. forget_value fetch base_url token (answer r handle_response)) (plain delete_method),
      ap (λ r. answer r (check_status fetch base_url token expect)) (plain head_method),
    )
