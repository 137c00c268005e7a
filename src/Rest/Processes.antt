-- ===== src/Rest/Processes.antt =====
-- `ProcessClient` of packages/js/client/src/rest/process-client.ts.
pub mod Paths
use bfw_engine.Common.{String, Bool, List, [], ◌∷◌, Option, none, some}
use bfw_engine.Graphql.Values.{Value}
use bfw_engine.Rest.Uri.{encode_uri_component}
use bfw_engine.Rest.Calls.{template, no_options, xml_query, sources_body}
use bfw_engine.Http.Transport
use bfw_engine.Http.Transport.{Fetch, HttpOutcome}

module _ (fetch : Fetch) (base_url token : String) where
  unfoldable pub get_all : HttpOutcome Value
  unfolding encode_uri_component template Transport.get
  get_all = Transport.get fetch base_url token "/processes" no_options

  unfoldable pub get : (id : String) → (include_xml : Bool) → HttpOutcome Value
  unfolding encode_uri_component template Transport.get
  get id include_xml =
      Transport.get fetch base_url token
        (template ("/processes/" ∷ (encode_uri_component id) ∷ xml_query include_xml ∷ []))
        no_options

  unfoldable pub get_versions : (id : String) → (include_xml : Bool) → HttpOutcome Value
  unfolding encode_uri_component template Transport.get
  get_versions id include_xml =
      Transport.get fetch base_url token
        (template
          ("/processes/" ∷ (encode_uri_component id) ∷ "/versions" ∷ xml_query include_xml ∷ []))
        no_options

  unfoldable pub deploy : (sources : List String) → HttpOutcome Value
  unfolding encode_uri_component template Transport.post
  deploy sources =
      Transport.post fetch base_url token "/processes" (some (sources_body sources)) no_options

  unfoldable pub start : (id : String) → (options : Option Value) → HttpOutcome Value
  unfolding encode_uri_component template Transport.post
  start id options =
      Transport.post fetch base_url token
        (template ("/processes/" ∷ (encode_uri_component id) ∷ "/start" ∷ [])) options no_options

  unfoldable pub enable : (id : String) → HttpOutcome Unit
  unfolding encode_uri_component template Transport.put
  enable id =
      Transport.put fetch base_url token
        (template ("/processes/" ∷ (encode_uri_component id) ∷ "/enable" ∷ [])) none no_options

  unfoldable pub disable : (id : String) → HttpOutcome Unit
  unfolding encode_uri_component template Transport.put
  disable id =
      Transport.put fetch base_url token
        (template ("/processes/" ∷ (encode_uri_component id) ∷ "/disable" ∷ [])) none no_options

  unfoldable pub undeploy : (id : String) → HttpOutcome Unit
  unfolding encode_uri_component template Transport.delete
  undeploy id =
      Transport.delete fetch base_url token
        (template ("/processes/" ∷ (encode_uri_component id) ∷ [])) no_options

  unfoldable pub delete_version : (id : String) → (version : String) → HttpOutcome Unit
  unfolding encode_uri_component template Transport.delete
  delete_version id version =
      Transport.delete fetch base_url token
        (template (
          "/processes/"
          ∷ (encode_uri_component id)
          ∷ "/versions/"
          ∷ (encode_uri_component version)
          ∷ []))
        no_options
