-- ===== src/Http/Tests.antt =====
-- Concrete requests of packages/js/client/src/http/transport.ts.
use bfw_engine.Common.{
  false, [], ◌∷◌, none, some, lookup, or_default, ◌==◌, if◌then◌else◌, ◌≡◌, refl,
}
use bfw_engine.Graphql.Values.{text, null}
use bfw_engine.Errors.Types.{BfwEngineError, text_body}
use bfw_engine.Errors.Mapper.{map_response_error}
use bfw_engine.Http.Transport
use bfw_engine.Http.Transport.{
  Fetch, Response, RequestOptions, returned, thrown, type_error, handle_response, get, get_text,
  post, put, head, Request,
}
use bfw_engine.Http.Transport.Sent.{content_type_of, operations-Authorization}
use bfw_engine.Http.Transport.Outcomes.{get-unreadable, head-rejected}

abbrev options : RequestOptions
options = record {
  skip_auth = false;
  headers = ("X-Trace", "7") ∷ ("Content-Type", "text/plain") ∷ [];
}

abbrev bad_gateway : Response
bad_gateway = record { status = 502; json = none; content = "<html/>" }

-- a server that knows one path
abbrev server : Fetch
server sent =
    if sent.url == "http://engine/health"
    then some (record { status = 200; json = some (text "up"); content = "\"up\"" })
    else some bad_gateway

answers_health : get server "http://engine" "token" "/health" options ≡ returned (text "up")
unfolding get
answers_health = refl

-- An error whose body is `null` is no error of the client.
null_body :
    handle_response (record { status = 500; json = some null; content = "null" }) ≡ type_error
unfolding handle_response
null_body = refl

-- A body that is a text stays as it is.
text_raw_body :
    handle_response (record { status = 418; json = some (text "tea"); content = "\"tea\"" })
    ≡ thrown (map_response_error 418 (text_body "tea"))
unfolding handle_response
text_raw_body = refl

-- a network that refuses requests without the token
abbrev guarded : Fetch
guarded sent =
    if or_default (lookup "Authorization" sent.headers) "" == "Bearer token"
    then server sent
    else none

guarded-server :
    (sent : Request)
    → lookup "Authorization" sent.headers ≡ some "Bearer token"
    → content_type_of sent.body sent.headers ≡ some "application/json"
    → guarded sent ≡ server sent
guarded-server sent h typed = rw h refl

operations-Authorization_example :
    (Transport.get guarded "http://engine" "token" "/health" options
      ≡ Transport.get server "http://engine" "token" "/health" options)
    × (get_text guarded "http://engine" "token" "/health" options
        ≡ get_text server "http://engine" "token" "/health" options)
    × (post guarded "http://engine" "token" "/health" (some (text "x")) options
        ≡ post server "http://engine" "token" "/health" (some (text "x")) options)
    × (put guarded "http://engine" "token" "/health" (some (text "x")) options
        ≡ put server "http://engine" "token" "/health" (some (text "x")) options)
    × (Transport.delete guarded "http://engine" "token" "/health" options
        ≡ Transport.delete server "http://engine" "token" "/health" options)
    × (head guarded "http://engine" "token" "/health" options none
        ≡ head server "http://engine" "token" "/health" options none)
operations-Authorization_example =
    operations-Authorization guarded server "http://engine" "token" options refl guarded-server
      "/health" (some (text "x")) none

get-unreadable_example :
    (e : BfwEngineError) × (get server "http://engine" "token" "/processes" options ≡ thrown e)
    × (e.status_code ≡ 502)
get-unreadable_example =
    get-unreadable server "http://engine" "token" "/processes" options bad_gateway refl refl refl

head-rejected_example :
    (e : BfwEngineError) × (head server "http://engine" "token" "/processes" options (some 204)
      ≡ thrown e)
    × (e.status_code ≡ 502)
head-rejected_example =
    head-rejected server "http://engine" "token" "/processes" options (some 204) bad_gateway refl
      refl
