-- ===== src/Rest/Decisions.antt =====
-- `DecisionClient` of packages/js/client/src/rest/decision-client.ts.
use mathlib.Core.Option
use bfw_engine.Common.{String, Bool, List, [], ◌∷◌, Option, none, some}
use bfw_engine.Graphql.Values.{Value, text, boolean, object, end, member}
use bfw_engine.Rest.Uri.{encode_uri_component}
use bfw_engine.Rest.Calls.{template, no_options, xml_query, sources_body, optional_member}
use bfw_engine.Http.Transport
use bfw_engine.Http.Transport.{Fetch, HttpOutcome}

-- The body of `evaluate`: a field that is left out of the options is not sent.
abbrev pub evaluation_body : Value → (decision_model_id : Option String) → Option Bool → Value
evaluation_body given decision_model_id include_unmatched_details = object (
    member "input" given (
      optional_member "decisionModelId" (Option.map text decision_model_id) (
        optional_member "includeUnmatchedDetails" (Option.map boolean include_unmatched_details)
          end)))

module _ (fetch : Fetch) (base_url token : String) where
  unfoldable pub get_all : HttpOutcome Value
  unfolding encode_uri_component template Transport.get
  get_all = Transport.get fetch base_url token "/decisions" no_options

  unfoldable pub get : (id : String) → (include_xml : Bool) → HttpOutcome Value
  unfolding encode_uri_component template Transport.get
  get id include_xml =
      Transport.get fetch base_url token
        (template ("/decisions/" ∷ (encode_uri_component id) ∷ xml_query include_xml ∷ []))
        no_options

  unfoldable pub get_versions : (id : String) → (include_xml : Bool) → HttpOutcome Value
  unfolding encode_uri_component template Transport.get
  get_versions id include_xml =
      Transport.get fetch base_url token
        (template
          ("/decisions/" ∷ (encode_uri_component id) ∷ "/versions" ∷ xml_query include_xml ∷ []))
        no_options

  unfoldable pub deploy : (sources : List String) → HttpOutcome Value
  unfolding encode_uri_component template Transport.post
  deploy sources =
      Transport.post fetch base_url token "/decisions" (some (sources_body sources)) no_options

  unfoldable pub enable : (id : String) → HttpOutcome Unit
  unfolding encode_uri_component template Transport.put
  enable id =
      Transport.put fetch base_url token
        (template ("/decisions/" ∷ (encode_uri_component id) ∷ "/enable" ∷ [])) none no_options

  unfoldable pub disable : (id : String) → HttpOutcome Unit
  unfolding encode_uri_component template Transport.put
  disable id =
      Transport.put fetch base_url token
        (template ("/decisions/" ∷ (encode_uri_component id) ∷ "/disable" ∷ [])) none no_options

  unfoldable pub undeploy : (id : String) → HttpOutcome Unit
  unfolding encode_uri_component template Transport.delete
  undeploy id =
      Transport.delete fetch base_url token
        (template ("/decisions/" ∷ (encode_uri_component id) ∷ [])) no_options

  unfoldable pub delete_version : (id : String) → (version : String) → HttpOutcome Unit
  unfolding encode_uri_component template Transport.delete
  delete_version id version =
      Transport.delete fetch base_url token
        (template (
          "/decisions/"
          ∷ (encode_uri_component id)
          ∷ "/versions/"
          ∷ (encode_uri_component version)
          ∷ []))
        no_options

  unfoldable pub evaluate :
      (id : String)
      → (given : Value) → (decision_model_id : Option String)
      → (include_unmatched_details : Option Bool) → HttpOutcome Value
  unfolding encode_uri_component template Transport.post
  evaluate id given decision_model_id include_unmatched_details =
      Transport.post fetch base_url token
        (template ("/decisions/" ∷ (encode_uri_component id) ∷ "/evaluate" ∷ []))
        (some (evaluation_body given decision_model_id include_unmatched_details)) no_options

  unfoldable pub evaluate_by_version :
      (id : String)
      → (version : String) → (given : Value) → (decision_model_id : Option String)
      → (include_unmatched_details : Option Bool) → HttpOutcome Value
  unfolding encode_uri_component template Transport.post
  evaluate_by_version id version given decision_model_id include_unmatched_details =
      Transport.post fetch base_url token
        (template (
          "/decisions/"
          ∷ (encode_uri_component id)
          ∷ "/versions/"
          ∷ (encode_uri_component version)
          ∷ "/evaluate"
          ∷ []))
        (some (evaluation_body given decision_model_id include_unmatched_details)) no_options

  unfoldable pub evaluate_service :
      (id : String)
      → (service_id : String) → (given : Value) → (include_unmatched_details : Option Bool)
      → HttpOutcome Value
  unfolding encode_uri_component template Transport.post
  evaluate_service id service_id given include_unmatched_details =
      Transport.post fetch base_url token
        (template (
          "/decisions/"
          ∷ (encode_uri_component id)
          ∷ "/services/"
          ∷ (encode_uri_component service_id)
          ∷ "/evaluate"
          ∷ []))
        (some (evaluation_body given none include_unmatched_details)) no_options
