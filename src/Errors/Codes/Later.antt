-- ===== src/Errors/Codes/Later.antt =====
-- The cases of `mapByErrorCode` in packages/js/client/src/errors/error-mapper.ts, from
-- `not_applicable` on.
use bfw_engine.Common.{String, List, [], ◌∷◌, none}
use bfw_engine.Graphql.Values.{nil}
use bfw_engine.Errors.Types.{Builder}
use bfw_engine.Errors.Plain.{
  ambiguous_decision_error, bad_request_error, bkm_not_found_error, conflict_error,
  decision_definition_disabled_error, decision_definition_not_found_error,
  decision_service_not_found_error, decision_service_validation_error,
  decision_version_not_found_error, dispatch_failed_error, graphql_complexity_limit_error,
  graphql_depth_limit_error, graphql_introspection_disabled_error, internal_engine_error,
  no_decisions_error, no_matching_condition_error, not_a_timer_event_error, not_found_error,
  retry_checkpoint_inside_adhoc_subprocess_error, retry_inside_adhoc_subprocess_error,
  retry_inside_transaction_scope_error,
}
use bfw_engine.Errors.Detailed.{
  decision_version_exists_error, dmn_cycle_error, dmn_evaluation_error, dmn_parse_error,
  input_value_violation_error, missing_service_input_error, process_instance_not_terminal_error,
  validation_error, version_exists_error,
}
use bfw_engine.Errors.Coercions.{text_or_null, array_or_empty, state_of}

abbrev pub later_codes : List (String × Builder)
later_codes =
    ("not_applicable", λ error_code message body. validation_error message nil body none)
    ∷ ("enable_failed", λ error_code message body. validation_error message nil body none)
    ∷ ("disable_failed", λ error_code message body. validation_error message nil body none)
    ∷ (
      "decision_not_found",
      λ error_code message body. decision_definition_not_found_error message body,
    )
    ∷ (
      "retry_inside_transaction_scope",
      λ error_code message body. retry_inside_transaction_scope_error message body,
    )
    ∷ (
      "retry_checkpoint_inside_adhoc_subprocess",
      λ error_code message body. retry_checkpoint_inside_adhoc_subprocess_error message body,
    )
    ∷ (
      "retry_inside_adhoc_subprocess",
      λ error_code message body. retry_inside_adhoc_subprocess_error message body,
    )
    ∷ ("not_a_timer_event", λ error_code message body. not_a_timer_event_error message body)
    ∷ ("dispatch_failed", λ error_code message body. dispatch_failed_error message body)
    ∷ ("conflict", λ error_code message body. conflict_error message body)
    ∷ ("bad_request", λ error_code message body. bad_request_error message body)
    ∷ ("no_matching_condition", λ error_code message body. no_matching_condition_error message body)
    ∷ ("no_decisions", λ error_code message body. no_decisions_error message body)
    ∷ (
      "root_process_instance_not_terminal",
      λ error_code message body. process_instance_not_terminal_error message (state_of body) body,
    )
    ∷ ("version_not_found", λ error_code message body. not_found_error message body)
    ∷ ("flow_node_instance_not_found", λ error_code message body. not_found_error message body)
    ∷ (
      "batch_conflict",
      λ error_code message body.
          version_exists_error message (array_or_empty body "conflicts") body,
    )
    ∷ ("graphql_depth_limit", λ error_code message body. graphql_depth_limit_error message body)
    ∷ (
      "graphql_complexity_limit",
      λ error_code message body. graphql_complexity_limit_error message body,
    )
    ∷ (
      "graphql_introspection_disabled",
      λ error_code message body. graphql_introspection_disabled_error message body,
    )
    ∷ (
      "decision_definition_not_found",
      λ error_code message body. decision_definition_not_found_error message body,
    )
    ∷ (
      "decision_definition_disabled",
      λ error_code message body. decision_definition_disabled_error message body,
    )
    ∷ (
      "dmn_evaluation_error",
      λ error_code message body.
          dmn_evaluation_error message (text_or_null body "decisionModelId")
            (text_or_null body "details") body,
    )
    ∷ (
      "decision_version_not_found",
      λ error_code message body. decision_version_not_found_error message body,
    )
    ∷ (
      "dmn_cycle_error",
      λ error_code message body. dmn_cycle_error message (array_or_empty body "decisionIds") body,
    )
    ∷ ("bkm_not_found", λ error_code message body. bkm_not_found_error message body)
    ∷ (
      "service_not_found",
      λ error_code message body. decision_service_not_found_error message body,
    )
    ∷ (
      "decision_service_validation_error",
      λ error_code message body. decision_service_validation_error message body,
    )
    ∷ ("ambiguous_decision", λ error_code message body. ambiguous_decision_error message body)
    ∷ (
      "input_value_violation",
      λ error_code message body.
          input_value_violation_error message (text_or_null body "inputId") body,
    )
    ∷ (
      "missing_service_input",
      λ error_code message body.
          missing_service_input_error message (array_or_empty body "missingInputs") body,
    )
    ∷ (
      "dmn_parse_error",
      λ error_code message body. dmn_parse_error message (array_or_empty body "failures") body,
    )
    ∷ (
      "decision_version_exists",
      λ error_code message body.
          decision_version_exists_error message (array_or_empty body "conflicts") body,
    )
    ∷ ("not_adhoc_subprocess", λ error_code message body. validation_error message nil body none)
    ∷ ("adhoc_activity_not_found", λ error_code message body. not_found_error message body)
    ∷ (
      "adhoc_already_completing",
      λ error_code message body. validation_error message nil body none,
    )
    ∷ ("adhoc_sequential_busy", λ error_code message body. validation_error message nil body none)
    ∷ ("adhoc_not_active", λ error_code message body. validation_error message nil body none)
    ∷ ("internal_error", λ error_code message body. internal_engine_error message body)
    ∷ []
