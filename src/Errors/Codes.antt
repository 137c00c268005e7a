-- ===== src/Errors/Codes.antt =====
-- The cases of `mapByErrorCode` in packages/js/client/src/errors/error-mapper.ts, in their order.
mod Later
use bfw_engine.Common.{String, List, [], ◌∷◌, none, some}
use bfw_engine.Graphql.Values.{nil}
use Later.{later_codes}
use bfw_engine.Errors.Types.{Builder}
use bfw_engine.Errors.Plain.{
  active_instances_exist_error, ambiguous_decision_error, ambiguous_start_event_error,
  bad_request_error, bkm_not_found_error, conflict_error, decision_definition_disabled_error,
  decision_definition_not_found_error, decision_service_not_found_error,
  decision_service_validation_error, decision_version_not_found_error, dispatch_failed_error,
  graphql_complexity_limit_error, graphql_depth_limit_error, graphql_introspection_disabled_error,
  incompatible_version_migration_error, internal_engine_error, linter_gate_failed_error,
  no_active_version_error, no_decisions_error, no_executable_process_error,
  no_matching_condition_error, no_start_event_error, not_a_timer_event_error, not_found_error,
  process_disabled_error, process_instance_not_retriable_error, process_not_found_error,
  retry_checkpoint_inside_adhoc_subprocess_error, retry_checkpoint_is_ebg_loser_error,
  retry_checkpoint_is_join_gateway_error, retry_checkpoint_is_mi_iteration_error,
  retry_checkpoint_is_non_retryable_error, retry_inside_adhoc_subprocess_error,
  retry_inside_transaction_scope_error, start_event_not_found_error,
}
use bfw_engine.Errors.Detailed.{
  contract_violation_error, decision_version_exists_error, deploy_validation_failed_error,
  dmn_cycle_error, dmn_evaluation_error, dmn_parse_error, engine_at_capacity_error,
  fni_not_waiting_error, forbidden_error, input_value_violation_error, missing_service_input_error,
  parse_error, payload_too_large_error, process_instance_already_terminal_error,
  process_instance_not_terminal_error, rate_limited_error, service_unavailable_error,
  validation_error, version_exists_error,
}
use bfw_engine.Errors.Coercions.{
  text_or, text_or_null, number_or_zero, number_or_null, array_or_empty, state_of, resource_kind,
}

abbrev pub error_codes : List (String × Builder)
error_codes =
    (
      "payload_too_large",
      λ error_code message body.
          payload_too_large_error (text_or body "field" "payload") (number_or_zero body "size")
            (number_or_zero body "limit") body,
    )
    ∷ (
      "rate_limited",
      λ error_code message body.
          rate_limited_error (number_or_zero body "retryAfterSeconds") message body,
    )
    ∷ (
      "engine_at_capacity",
      λ error_code message body.
          engine_at_capacity_error (number_or_zero body "active") (number_or_null body "limit")
            (number_or_zero body "retryAfterSeconds") message body,
    )
    ∷ (
      "service_unavailable",
      λ error_code message body. service_unavailable_error message body error_code,
    )
    ∷ (
      "engine_shutting_down",
      λ error_code message body. service_unavailable_error message body error_code,
    )
    ∷ ("not_found", λ error_code message body. not_found_error message body)
    ∷ ("metrics_disabled", λ error_code message body. not_found_error message body)
    ∷ (
      "forbidden",
      λ error_code message body.
          forbidden_error (text_or body "requiredClaim" "") (text_or body "requiredValue" "")
            (resource_kind body) message body,
    )
    ∷ ("process_not_found", λ error_code message body. process_not_found_error message body)
    ∷ ("no_active_version", λ error_code message body. no_active_version_error message body)
    ∷ ("process_disabled", λ error_code message body. process_disabled_error message body)
    ∷ (
      "active_instances_exist",
      λ error_code message body. active_instances_exist_error message body,
    )
    ∷ ("ambiguous_start_event", λ error_code message body. ambiguous_start_event_error message body)
    ∷ ("start_event_not_found", λ error_code message body. start_event_not_found_error message body)
    ∷ ("no_start_event", λ error_code message body. no_start_event_error message body)
    ∷ ("no_executable_process", λ error_code message body. no_executable_process_error message body)
    ∷ (
      "invalid_values",
      λ error_code message body. validation_error message nil body (some error_code),
    )
    ∷ (
      "invalid_action_id",
      λ error_code message body. validation_error message nil body (some error_code),
    )
    ∷ (
      "contract_violation",
      λ error_code message body.
          contract_violation_error message (array_or_empty body "violations") body,
    )
    ∷ (
      "process_already_terminal",
      λ error_code message body.
          process_instance_already_terminal_error message (state_of body) body,
    )
    ∷ (
      "process_instance_not_terminal",
      λ error_code message body. process_instance_not_terminal_error message (state_of body) body,
    )
    ∷ (
      "fni_not_waiting",
      λ error_code message body. fni_not_waiting_error message (state_of body) error_code body,
    )
    ∷ (
      "fni_not_active",
      λ error_code message body. fni_not_waiting_error message (state_of body) error_code body,
    )
    ∷ (
      "fni_already_finished",
      λ error_code message body. fni_not_waiting_error message (state_of body) error_code body,
    )
    ∷ (
      "fni_already_aborted",
      λ error_code message body. fni_not_waiting_error message (state_of body) error_code body,
    )
    ∷ (
      "fni_already_interrupted",
      λ error_code message body. fni_not_waiting_error message (state_of body) error_code body,
    )
    ∷ (
      "fni_already_fatal",
      λ error_code message body. fni_not_waiting_error message (state_of body) error_code body,
    )
    ∷ (
      "fni_is_multi_instance_shell",
      λ error_code message body. fni_not_waiting_error message (state_of body) error_code body,
    )
    ∷ (
      "parse_error",
      λ error_code message body. parse_error message (array_or_empty body "failures") body,
    )
    ∷ (
      "validation_failed",
      λ error_code message body.
          deploy_validation_failed_error message (array_or_empty body "failures") body,
    )
    ∷ ("linter_gate_failed", λ error_code message body. linter_gate_failed_error message body)
    ∷ (
      "version_exists",
      λ error_code message body.
          version_exists_error message (array_or_empty body "conflicts") body,
    )
    ∷ (
      "process_instance_not_retriable",
      λ error_code message body. process_instance_not_retriable_error message body,
    )
    ∷ (
      "version_migration_incompatible",
      λ error_code message body. incompatible_version_migration_error message body,
    )
    ∷ (
      "retry_checkpoint_is_join_gateway",
      λ error_code message body. retry_checkpoint_is_join_gateway_error message body,
    )
    ∷ (
      "retry_checkpoint_is_ebg_loser",
      λ error_code message body. retry_checkpoint_is_ebg_loser_error message body,
    )
    ∷ (
      "retry_checkpoint_is_mi_iteration",
      λ error_code message body. retry_checkpoint_is_mi_iteration_error message body,
    )
    ∷ (
      "retry_checkpoint_is_non_retryable",
      λ error_code message body. retry_checkpoint_is_non_retryable_error message body,
    )
    ∷ (
      "target_version_not_cached",
      λ error_code message body. validation_error message nil body none,
    )
    ∷ ("version_disabled", λ error_code message body. process_disabled_error message body)
    ∷ later_codes
