-- ===== src/Rest/Tasks.antt =====
-- The clients for tasks, process instances and ad-hoc subprocesses: manual-task-client.ts,
-- user-task-client.ts, process-instance-client.ts and adhoc-subprocess-client.ts of
-- packages/js/client/src/rest. A name that two of them use has its client's behind it.
use bfw_engine.Common.{String, [], ◌∷◌, Option, none, some}
use bfw_engine.Graphql.Values.{Value}
use bfw_engine.Rest.Uri.{encode_uri_component}
use bfw_engine.Rest.Calls.{template, no_options, empty_body, data_of}
use bfw_engine.Http.Transport
use bfw_engine.Http.Transport.{Fetch, HttpOutcome}

module _ (fetch : Fetch) (base_url token : String) where
  unfoldable pub confirm : (flow_node_instance_id : String) → HttpOutcome Unit
  unfolding encode_uri_component template Transport.put
  confirm flow_node_instance_id =
      Transport.put fetch base_url token
        (template
          ("/manual-tasks/" ∷ (encode_uri_component flow_node_instance_id) ∷ "/confirm" ∷ []))
        none no_options

  unfoldable pub cancel_manual_task :
      (flow_node_instance_id : String) → (options : Option Value) → HttpOutcome Unit
  unfolding encode_uri_component template Transport.put
  cancel_manual_task flow_node_instance_id options =
      Transport.put fetch base_url token
        (template
          ("/manual-tasks/" ∷ (encode_uri_component flow_node_instance_id) ∷ "/cancel" ∷ []))
        options no_options

  unfoldable pub finish :
      (flow_node_instance_id : String) → (options : Option Value) → HttpOutcome Unit
  unfolding encode_uri_component template Transport.put
  finish flow_node_instance_id options =
      Transport.put fetch base_url token
        (template ("/user-tasks/" ∷ (encode_uri_component flow_node_instance_id) ∷ "/finish" ∷ []))
        options no_options

  unfoldable pub cancel_user_task :
      (flow_node_instance_id : String) → (options : Option Value) → HttpOutcome Unit
  unfolding encode_uri_component template Transport.put
  cancel_user_task flow_node_instance_id options =
      Transport.put fetch base_url token
        (template ("/user-tasks/" ∷ (encode_uri_component flow_node_instance_id) ∷ "/cancel" ∷ []))
        options no_options

  unfoldable pub abort : (id : String) → (options : Option Value) → HttpOutcome Unit
  unfolding encode_uri_component template Transport.put
  abort id options =
      Transport.put fetch base_url token
        (template ("/process-instances/" ∷ (encode_uri_component id) ∷ "/abort" ∷ [])) options
        no_options

  unfoldable pub delete_process_instance : (id : String) → HttpOutcome Unit
  unfolding encode_uri_component template Transport.delete
  delete_process_instance id =
      Transport.delete fetch base_url token
        (template ("/process-instances/" ∷ (encode_uri_component id) ∷ [])) no_options

  unfoldable pub retry : (id : String) → (options : Option Value) → HttpOutcome Unit
  unfolding encode_uri_component template Transport.put
  retry id options =
      Transport.put fetch base_url token
        (template ("/process-instances/" ∷ (encode_uri_component id) ∷ "/retry" ∷ [])) options
        no_options

  unfoldable pub get_activities : (process_instance_id : String) → HttpOutcome Value
  unfolding encode_uri_component template Transport.get
  get_activities process_instance_id = data_of (
      Transport.get fetch base_url token
        (template (
          "/adhoc-subprocesses/" ∷ (encode_uri_component process_instance_id) ∷ "/activities" ∷ []))
        no_options)

  unfoldable pub activate :
      (process_instance_id : String) → (activity_id : String) → HttpOutcome Value
  unfolding encode_uri_component template Transport.post
  activate process_instance_id activity_id =
      Transport.post fetch base_url token
        (template (
          "/adhoc-subprocesses/"
          ∷ (encode_uri_component process_instance_id)
          ∷ "/activities/"
          ∷ (encode_uri_component activity_id)
          ∷ "/activate"
          ∷ []))
        (some empty_body) no_options

  unfoldable pub complete : (process_instance_id : String) → HttpOutcome Value
  unfolding encode_uri_component template Transport.post
  complete process_instance_id =
      Transport.post fetch base_url token
        (template
          ("/adhoc-subprocesses/" ∷ (encode_uri_component process_instance_id) ∷ "/complete" ∷ []))
        (some empty_body) no_options

  unfoldable pub get_status : (process_instance_id : String) → HttpOutcome Value
  unfolding encode_uri_component template Transport.get
  get_status process_instance_id =
      Transport.get fetch base_url token
        (template
          ("/adhoc-subprocesses/" ∷ (encode_uri_component process_instance_id) ∷ "/status" ∷ []))
        no_options
