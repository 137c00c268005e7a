-- ===== src/Errors/Types.antt =====
-- The error classes of packages/js/sdk/src/errors. An error is a record with its class, the fields of
-- `BfwEngineError` and those of its class.
use bfw_engine.Common.{String, ℕ, Bool, List, [], Option}
use bfw_engine.Graphql.Values.{Value, Elements, Number, indexed}

-- `base` is `BfwEngineError` itself.
pub data ErrorClass : Type 0 where
  base active_instances_exist ambiguous_decision ambiguous_start_event bad_request : ErrorClass
  bkm_not_found conflict contract_violation decision_definition_disabled : ErrorClass
  decision_definition_not_found decision_service_not_found decision_service_validation : ErrorClass
  decision_version_exists decision_version_not_found deploy_validation_failed : ErrorClass
  dispatch_failed dmn_cycle dmn_evaluation dmn_parse engine_at_capacity fni_not_waiting : ErrorClass
  forbidden graphql_complexity_limit graphql_depth_limit graphql_introspection_disabled : ErrorClass
  incompatible_version_migration input_value_violation internal_engine linter_gate_failed :
      ErrorClass
  missing_service_input no_active_version no_decisions no_executable_process : ErrorClass
  no_matching_condition no_start_event not_a_timer_event not_found parse payload_too_large :
      ErrorClass
  process_disabled process_instance_already_terminal process_instance_not_retriable : ErrorClass
  process_instance_not_terminal process_not_found rate_limited : ErrorClass
  retry_checkpoint_inside_adhoc_subprocess retry_checkpoint_is_ebg_loser : ErrorClass
  retry_checkpoint_is_join_gateway retry_checkpoint_is_mi_iteration : ErrorClass
  retry_checkpoint_is_non_retryable retry_inside_adhoc_subprocess : ErrorClass
  retry_inside_transaction_scope service_unavailable start_event_not_found unauthorized : ErrorClass
  validation version_exists : ErrorClass

-- `'process' | 'process_instance' | 'decision' | 'message' | 'signal'`
pub data ResourceKind : Type 0 where
  process_resource process_instance_resource decision_resource message_resource signal_resource :
      ResourceKind

-- The fields that a class adds. A number is kept as a numeral.
pub data Details : Type 0 where
  no_details : Details
  payload : (field size limit : String) → Details
  retry_after : (seconds : String) → Details
  capacity : (active : String) (limit : Option String) (seconds : String) → Details
  access : (required_claim required_value : String) (resource : ResourceKind) → Details
  found : Elements → Details
  current_state : Value → Details
  evaluation : (decision_model_id details : Option String) → Details
  input : (input_id : Option String) → Details

-- A response body, which is the value of a JSON text other than `null`.
pub data Body : Type 0 where
  object_body : List (String × Value) → Body
  array_body : Elements → Body
  text_body : String → Body
  number_body : Number → Body
  boolean_body : Bool → Body

-- The fields of a body under names. Those of a text are indices and `length`, which no one reads.
abbrev pub own_fields : Body → List (String × Value)
own_fields (object_body fields) = fields
own_fields (array_body values) = indexed 0 values
own_fields _ = []

pub record BfwEngineError : Type 0 where
  pub name : ErrorClass
  pub status_code : ℕ
  pub error_code : String
  pub message : String
  pub raw_body : Body
  pub details : Details

-- What a case makes of the error's code, its message and the body.
abbrev pub Builder : Type 0
Builder = (error_code message : String) → Body → BfwEngineError
