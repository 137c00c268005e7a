-- ===== src/Errors/Plain.antt =====
-- The error classes of packages/js/sdk/src/errors that add nothing to `BfwEngineError`.
use bfw_engine.Common.{String, ℕ}
use bfw_engine.Errors.Types.{ErrorClass, Details, no_details, Body, BfwEngineError}

-- `super(statusCode, errorCode, message, rawBody)`
abbrev pub super : ErrorClass → ℕ → String → Details → String → Body → BfwEngineError
super name status_code error_code details message raw_body = record {
  name = name;
  status_code = status_code;
  error_code = error_code;
  message = message;
  raw_body = raw_body;
  details = details;
}

abbrev pub active_instances_exist_error : String → Body → BfwEngineError
active_instances_exist_error =
    super ErrorClass.active_instances_exist 409 "active_instances_exist" no_details

abbrev pub ambiguous_decision_error : String → Body → BfwEngineError
ambiguous_decision_error = super ErrorClass.ambiguous_decision 422 "ambiguous_decision" no_details

abbrev pub ambiguous_start_event_error : String → Body → BfwEngineError
ambiguous_start_event_error =
    super ErrorClass.ambiguous_start_event 422 "ambiguous_start_event" no_details

abbrev pub bad_request_error : String → Body → BfwEngineError
bad_request_error = super ErrorClass.bad_request 400 "bad_request" no_details

abbrev pub bkm_not_found_error : String → Body → BfwEngineError
bkm_not_found_error = super ErrorClass.bkm_not_found 404 "bkm_not_found" no_details

abbrev pub conflict_error : String → Body → BfwEngineError
conflict_error = super ErrorClass.conflict 409 "conflict" no_details

abbrev pub decision_definition_disabled_error : String → Body → BfwEngineError
decision_definition_disabled_error =
    super ErrorClass.decision_definition_disabled 422 "decision_definition_disabled" no_details

abbrev pub decision_definition_not_found_error : String → Body → BfwEngineError
decision_definition_not_found_error =
    super ErrorClass.decision_definition_not_found 404 "decision_definition_not_found" no_details

abbrev pub decision_service_not_found_error : String → Body → BfwEngineError
decision_service_not_found_error =
    super ErrorClass.decision_service_not_found 404 "service_not_found" no_details

abbrev pub decision_service_validation_error : String → Body → BfwEngineError
decision_service_validation_error =
    super ErrorClass.decision_service_validation 422 "decision_service_validation_error" no_details

abbrev pub decision_version_not_found_error : String → Body → BfwEngineError
decision_version_not_found_error =
    super ErrorClass.decision_version_not_found 404 "decision_version_not_found" no_details

abbrev pub dispatch_failed_error : String → Body → BfwEngineError
dispatch_failed_error = super ErrorClass.dispatch_failed 500 "dispatch_failed" no_details

abbrev pub graphql_complexity_limit_error : String → Body → BfwEngineError
graphql_complexity_limit_error =
    super ErrorClass.graphql_complexity_limit 200 "graphql_complexity_limit" no_details

abbrev pub graphql_depth_limit_error : String → Body → BfwEngineError
graphql_depth_limit_error =
    super ErrorClass.graphql_depth_limit 200 "graphql_depth_limit" no_details

abbrev pub graphql_introspection_disabled_error : String → Body → BfwEngineError
graphql_introspection_disabled_error =
    super ErrorClass.graphql_introspection_disabled 200 "graphql_introspection_disabled" no_details

abbrev pub incompatible_version_migration_error : String → Body → BfwEngineError
incompatible_version_migration_error =
    super ErrorClass.incompatible_version_migration 422 "version_migration_incompatible" no_details

abbrev pub internal_engine_error : String → Body → BfwEngineError
internal_engine_error = super ErrorClass.internal_engine 500 "internal_error" no_details

abbrev pub linter_gate_failed_error : String → Body → BfwEngineError
linter_gate_failed_error = super ErrorClass.linter_gate_failed 422 "linter_gate_failed" no_details

abbrev pub no_active_version_error : String → Body → BfwEngineError
no_active_version_error = super ErrorClass.no_active_version 404 "no_active_version" no_details

abbrev pub no_decisions_error : String → Body → BfwEngineError
no_decisions_error = super ErrorClass.no_decisions 422 "no_decisions" no_details

abbrev pub no_executable_process_error : String → Body → BfwEngineError
no_executable_process_error =
    super ErrorClass.no_executable_process 422 "no_executable_process" no_details

abbrev pub no_matching_condition_error : String → Body → BfwEngineError
no_matching_condition_error =
    super ErrorClass.no_matching_condition 422 "no_matching_condition" no_details

abbrev pub no_start_event_error : String → Body → BfwEngineError
no_start_event_error = super ErrorClass.no_start_event 422 "no_start_event" no_details

abbrev pub not_a_timer_event_error : String → Body → BfwEngineError
not_a_timer_event_error = super ErrorClass.not_a_timer_event 422 "not_a_timer_event" no_details

abbrev pub not_found_error : String → Body → BfwEngineError
not_found_error = super ErrorClass.not_found 404 "not_found" no_details

abbrev pub process_disabled_error : String → Body → BfwEngineError
process_disabled_error = super ErrorClass.process_disabled 422 "process_disabled" no_details

abbrev pub process_instance_not_retriable_error : String → Body → BfwEngineError
process_instance_not_retriable_error =
    super ErrorClass.process_instance_not_retriable 422 "process_instance_not_retriable" no_details

abbrev pub process_not_found_error : String → Body → BfwEngineError
process_not_found_error = super ErrorClass.process_not_found 404 "process_not_found" no_details

abbrev pub retry_checkpoint_inside_adhoc_subprocess_error : String → Body → BfwEngineError
retry_checkpoint_inside_adhoc_subprocess_error =
    super ErrorClass.retry_checkpoint_inside_adhoc_subprocess 422
      "retry_checkpoint_inside_adhoc_subprocess" no_details

abbrev pub retry_checkpoint_is_ebg_loser_error : String → Body → BfwEngineError
retry_checkpoint_is_ebg_loser_error =
    super ErrorClass.retry_checkpoint_is_ebg_loser 422 "retry_checkpoint_is_ebg_loser" no_details

abbrev pub retry_checkpoint_is_join_gateway_error : String → Body → BfwEngineError
retry_checkpoint_is_join_gateway_error =
    super ErrorClass.retry_checkpoint_is_join_gateway 422 "retry_checkpoint_is_join_gateway"
      no_details

abbrev pub retry_checkpoint_is_mi_iteration_error : String → Body → BfwEngineError
retry_checkpoint_is_mi_iteration_error =
    super ErrorClass.retry_checkpoint_is_mi_iteration 422 "retry_checkpoint_is_mi_iteration"
      no_details

abbrev pub retry_checkpoint_is_non_retryable_error : String → Body → BfwEngineError
retry_checkpoint_is_non_retryable_error =
    super ErrorClass.retry_checkpoint_is_non_retryable 422 "retry_checkpoint_is_non_retryable"
      no_details

abbrev pub retry_inside_adhoc_subprocess_error : String → Body → BfwEngineError
retry_inside_adhoc_subprocess_error =
    super ErrorClass.retry_inside_adhoc_subprocess 422 "retry_inside_adhoc_subprocess" no_details

abbrev pub retry_inside_transaction_scope_error : String → Body → BfwEngineError
retry_inside_transaction_scope_error =
    super ErrorClass.retry_inside_transaction_scope 422 "retry_inside_transaction_scope" no_details

abbrev pub start_event_not_found_error : String → Body → BfwEngineError
start_event_not_found_error =
    super ErrorClass.start_event_not_found 422 "start_event_not_found" no_details
