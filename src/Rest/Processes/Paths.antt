-- ===== src/Rest/Processes/Paths.antt =====
-- The paths that `ProcessClient` of packages/js/client/src/rest/process-client.ts asks for.
use Prim.Native.String
use text.Mathlib.TextLemmas.{append-nil}
use bfw_engine.Common.{
  String, Bool, true, false, List, [], ◌∷◌, Option, none, any, ◌==◌, ◌≡◌, refl, ap,
}
use bfw_engine.Graphql.Values.{Value}
use bfw_engine.Http.Transport
use bfw_engine.Http.Transport.{
  Fetch, Method, get_method, post_method, put_method, delete_method, Headers, Request, Response,
  request, answer, handle_response, forget_value, build_headers, json_headers,
}
use bfw_engine.Rest.Uri.{encode_uri_component}
use bfw_engine.Rest.Uri.Segments.{all_segment_chars, encode_uri_component-all_segment_chars}
use bfw_engine.Rest.Calls.{template, xml_query, no_options}
use bfw_engine.Rest.Processes.{get, get_versions, start, enable, disable, undeploy, delete_version}

-- What follows the name of a process.
abbrev pub process_suffixes : List String
process_suffixes =
    "" ∷ "?includeXml=true" ∷ "/versions" ∷ "/versions?includeXml=true" ∷ "/start" ∷ "/enable"
    ∷ "/disable" ∷ []

-- A path with one segment for the process, or with one for it and one for its version.
pub data IsProcessPath : String → Type 0 where
  of_process :
      (segment suffix : String)
      → all_segment_chars segment ≡ true
      → any (◌==◌ suffix) process_suffixes ≡ true
      → IsProcessPath (String.◌++◌ "/processes/" (String.◌++◌ segment suffix))
  of_version :
      (segment version : String)
      → all_segment_chars segment ≡ true
      → all_segment_chars version ≡ true
      → IsProcessPath
          (String.◌++◌ "/processes/" (String.◌++◌ segment (String.◌++◌ "/versions/" version)))

abbrev path_to : (id suffix : String) → String
path_to id suffix = String.◌++◌ "/processes/" (String.◌++◌ (encode_uri_component id) suffix)

process_path :
    (id suffix : String)
    → any (◌==◌ suffix) process_suffixes ≡ true
    → IsProcessPath (path_to id suffix)
process_path id suffix h =
    of_process (encode_uri_component id) suffix (encode_uri_component-all_segment_chars id) h

query_path :
    (id : String) (include_xml : Bool)
    → IsProcessPath
        (template ("/processes/" ∷ encode_uri_component id ∷ xml_query include_xml ∷ []))
unfolding template
query_path id true = process_path id "?includeXml=true" refl
query_path id false = process_path id "" refl

versions_path :
    (id : String) (include_xml : Bool)
    → IsProcessPath (
        template
          ("/processes/" ∷ encode_uri_component id ∷ "/versions" ∷ xml_query include_xml ∷ []))
unfolding template
versions_path id true = process_path id "/versions?includeXml=true" refl
versions_path id false = process_path id "/versions" refl

version_path :
    (id version : String)
    → IsProcessPath (
        template (
          "/processes/"
          ∷ encode_uri_component id
          ∷ "/versions/"
          ∷ encode_uri_component version
          ∷ []))
unfolding template
version_path id version = rw (append-nil (encode_uri_component version)) (
    of_version (encode_uri_component id) (encode_uri_component version)
      (encode_uri_component-all_segment_chars id) (encode_uri_component-all_segment_chars version))

-- Whatever texts name a process and a version, the seven calls that name them ask for nothing but paths
-- in which each name is one segment of unreserved characters and escapes, and what stands around it is
-- fixed: two networks that answer alike on these paths give the same results.
pub calls-IsProcessPath :
    (fetch other : Fetch) (base_url token : String)
    → ((sent : Request) (path : String)
        → IsProcessPath path
        → sent.url ≡ String.◌++◌ base_url path
        → fetch sent ≡ other sent)
    → (id version : String) (include_xml : Bool) (options : Option Value)
    → (get fetch base_url token id include_xml ≡ get other base_url token id include_xml)
      × (get_versions fetch base_url token id include_xml
          ≡ get_versions other base_url token id include_xml)
      × (start fetch base_url token id options ≡ start other base_url token id options)
      × (enable fetch base_url token id ≡ enable other base_url token id)
      × (disable fetch base_url token id ≡ disable other base_url token id)
      × (undeploy fetch base_url token id ≡ undeploy other base_url token id)
      × (delete_version fetch base_url token id version
          ≡ delete_version other base_url token id version)
unfolding get get_versions start enable disable undeploy delete_version template Transport.get
    Transport.post Transport.put Transport.delete
calls-IsProcessPath fetch other base_url token agree id version include_xml options =
    let plain = build_headers token no_options in
    let typed = json_headers fetch base_url token no_options in
    let settle =
      λ (r : Option Response). forget_value fetch base_url token (answer r handle_response) in
    let asks =
      λ (method : Method) (headers : Headers) (body : Option Value) (path : String)
          (h : IsProcessPath path).
        agree (request fetch base_url token method path headers body) path h refl in
    (
      ap (λ r. answer r handle_response) (asks get_method plain none _ (query_path id include_xml)),
      ap (λ r. answer r handle_response)
          (asks get_method plain none _ (versions_path id include_xml)),
      ap (λ r. answer r handle_response)
          (asks post_method typed options _ (process_path id "/start" refl)),
      ap settle (asks put_method plain none _ (process_path id "/enable" refl)),
      ap settle (asks put_method plain none _ (process_path id "/disable" refl)),
      ap settle (asks delete_method plain none _ (process_path id "" refl)),
      ap settle (asks delete_method plain none _ (version_path id version)),
    )
