-- ===== src/Rest/Events.antt =====
-- engine-client.ts, event-client.ts and timer-schedule-client.ts of packages/js/client/src/rest. The list of
-- timer schedules, whose query a URLSearchParams writes, is left out.
use bfw_engine.Common.{String, [], ◌∷◌, Option, none, some}
use bfw_engine.Graphql.Values.{Value, object, end, member}
use bfw_engine.Rest.Uri.{encode_uri_component}
use bfw_engine.Rest.Calls.{template, no_options, without_auth, empty_body, optional_member, data_of}
use bfw_engine.Http.Transport
use bfw_engine.Http.Transport.{Fetch, HttpOutcome}

module _ (fetch : Fetch) (base_url token : String) where
  unfoldable pub health : HttpOutcome Unit
  unfolding encode_uri_component template Transport.head
  health = Transport.head fetch base_url token "/health" without_auth (some 204)

  unfoldable pub info : HttpOutcome Value
  unfolding encode_uri_component template Transport.get
  info = Transport.get fetch base_url token "/info" without_auth

  unfoldable pub stats : HttpOutcome Value
  unfolding encode_uri_component template Transport.get
  stats = Transport.get fetch base_url token "/stats" no_options

  unfoldable pub metrics : HttpOutcome (Option String)
  unfolding encode_uri_component template Transport.get_text
  metrics = Transport.get_text fetch base_url token "/metrics" without_auth

  unfoldable pub trigger_message :
      (name : String) → (given : Value) → (correlation : Option Value) → HttpOutcome Value
  unfolding encode_uri_component template Transport.post
  trigger_message name given correlation =
      Transport.post fetch base_url token
        (template ("/messages/" ∷ (encode_uri_component name) ∷ "/trigger" ∷ []))
        (some (object (member "payload" given (optional_member "correlation" correlation end))))
        no_options

  unfoldable pub trigger_signal : (name : String) → HttpOutcome Value
  unfolding encode_uri_component template Transport.post
  trigger_signal name =
      Transport.post fetch base_url token
        (template ("/signals/" ∷ (encode_uri_component name) ∷ "/trigger" ∷ [])) (some empty_body)
        no_options

  unfoldable pub trigger_timer : (flow_node_instance_id : String) → HttpOutcome Value
  unfolding encode_uri_component template Transport.post
  trigger_timer flow_node_instance_id =
      Transport.post fetch base_url token
        (template
          ("/timer-events/" ∷ (encode_uri_component flow_node_instance_id) ∷ "/trigger" ∷ []))
        (some empty_body) no_options

  unfoldable pub trigger_escalation : (escalation_code : String) → HttpOutcome Value
  unfolding encode_uri_component template Transport.post
  trigger_escalation escalation_code =
      Transport.post fetch base_url token
        (template ("/escalations/" ∷ (encode_uri_component escalation_code) ∷ "/trigger" ∷ []))
        (some empty_body) no_options

  unfoldable pub get_timer_schedule : (schedule_id : String) → HttpOutcome Value
  unfolding encode_uri_component template Transport.get
  get_timer_schedule schedule_id = data_of (
      Transport.get fetch base_url token
        (template ("/timer-schedules/" ∷ (encode_uri_component schedule_id) ∷ [])) no_options)

  unfoldable pub enable_timer_schedule : (schedule_id : String) → HttpOutcome Unit
  unfolding encode_uri_component template Transport.put
  enable_timer_schedule schedule_id =
      Transport.put fetch base_url token
        (template ("/timer-schedules/" ∷ (encode_uri_component schedule_id) ∷ "/enable" ∷ [])) none
        no_options

  unfoldable pub disable_timer_schedule : (schedule_id : String) → HttpOutcome Unit
  unfolding encode_uri_component template Transport.put
  disable_timer_schedule schedule_id =
      Transport.put fetch base_url token
        (template ("/timer-schedules/" ∷ (encode_uri_component schedule_id) ∷ "/disable" ∷ [])) none
        no_options
