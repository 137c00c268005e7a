-- ===== src/Errors/Detailed.antt =====
-- The error classes of packages/js/sdk/src/errors that add fields of their own, or take the code of the
-- error as an argument. A parameter's default stands where the callers leave it out.
use Prim.Native.String
use bfw_engine.Common.{String, Option, or_default}
use bfw_engine.Graphql.Values.{Value, Elements}
use bfw_engine.Errors.Types.{
  ErrorClass, ResourceKind, no_details, payload, retry_after, capacity, access, found,
  current_state, evaluation, input, Body, BfwEngineError,
}
use bfw_engine.Errors.Plain.{super}

abbrev pub payload_too_large_error : (field size limit : String) → Body → BfwEngineError
payload_too_large_error field size limit raw_body =
    super ErrorClass.payload_too_large 413 "payload_too_large" (payload field size limit)
      (String.◌++◌ "Payload field '" (
        String.◌++◌ field
          (String.◌++◌ "' size " (String.◌++◌ size (String.◌++◌ " exceeds limit " limit)))))
      raw_body

abbrev pub rate_limited_error : (seconds message : String) → Body → BfwEngineError
rate_limited_error seconds = super ErrorClass.rate_limited 429 "rate_limited" (retry_after seconds)

abbrev pub engine_at_capacity_error :
    (active : String) (limit : Option String) (seconds message : String) → Body → BfwEngineError
engine_at_capacity_error active limit seconds =
    super ErrorClass.engine_at_capacity 503 "engine_at_capacity" (capacity active limit seconds)

abbrev pub service_unavailable_error :
    (message : String) → Body → (error_code : String) → BfwEngineError
service_unavailable_error message raw_body error_code =
    super ErrorClass.service_unavailable 503 error_code no_details message raw_body

abbrev pub unauthorized_error : (message : Option String) → Body → BfwEngineError
unauthorized_error message raw_body =
    super ErrorClass.unauthorized 401 "unauthorized" no_details (or_default message "unauthorized")
      raw_body

abbrev pub forbidden_error :
    (required_claim required_value : String)
    → ResourceKind
    → (message : String) → Body
    → BfwEngineError
forbidden_error required_claim required_value resource =
    super ErrorClass.forbidden 403 "forbidden" (access required_claim required_value resource)

-- `errorCode` is `none` for the default.
abbrev pub validation_error :
    (message : String)
    → (failures : Elements) → Body
    → (error_code : Option String) → BfwEngineError
validation_error message failures raw_body error_code =
    super ErrorClass.validation 422 (or_default error_code "validation_error") (found failures)
      message raw_body

abbrev pub fni_not_waiting_error :
    (message : String) (state : Value) (error_code : String) → Body → BfwEngineError
fni_not_waiting_error message state error_code raw_body =
    super ErrorClass.fni_not_waiting 422 error_code (current_state state) message raw_body

abbrev pub process_instance_already_terminal_error :
    (message : String) (state : Value) → Body → BfwEngineError
process_instance_already_terminal_error message state =
    super ErrorClass.process_instance_already_terminal 422 "process_already_terminal"
      (current_state state) message

abbrev pub process_instance_not_terminal_error :
    (message : String) (state : Value) → Body → BfwEngineError
process_instance_not_terminal_error message state =
    super ErrorClass.process_instance_not_terminal 422 "process_instance_not_terminal"
      (current_state state) message

abbrev pub contract_violation_error :
    (message : String) (violations : Elements) → Body → BfwEngineError
contract_violation_error message violations =
    super ErrorClass.contract_violation 422 "contract_violation" (found violations) message

abbrev pub parse_error : (message : String) (failures : Elements) → Body → BfwEngineError
parse_error message failures = super ErrorClass.parse 400 "parse_error" (found failures) message

abbrev pub deploy_validation_failed_error :
    (message : String) (failures : Elements) → Body → BfwEngineError
deploy_validation_failed_error message failures =
    super ErrorClass.deploy_validation_failed 422 "validation_failed" (found failures) message

abbrev pub version_exists_error : (message : String) (conflicts : Elements) → Body → BfwEngineError
version_exists_error message conflicts =
    super ErrorClass.version_exists 409 "version_exists" (found conflicts) message

abbrev pub decision_version_exists_error :
    (message : String) (conflicts : Elements) → Body → BfwEngineError
decision_version_exists_error message conflicts =
    super ErrorClass.decision_version_exists 409 "decision_version_exists" (found conflicts) message

abbrev pub dmn_parse_error : (message : String) (failures : Elements) → Body → BfwEngineError
dmn_parse_error message failures =
    super ErrorClass.dmn_parse 400 "dmn_parse_error" (found failures) message

abbrev pub dmn_cycle_error : (message : String) (decision_ids : Elements) → Body → BfwEngineError
dmn_cycle_error message decision_ids =
    super ErrorClass.dmn_cycle 422 "dmn_cycle_error" (found decision_ids) message

abbrev pub missing_service_input_error :
    (message : String) (missing_inputs : Elements) → Body → BfwEngineError
missing_service_input_error message missing_inputs =
    super ErrorClass.missing_service_input 422 "missing_service_input" (found missing_inputs)
      message

abbrev pub dmn_evaluation_error :
    (message : String) (decision_model_id details : Option String) → Body → BfwEngineError
dmn_evaluation_error message decision_model_id reasons =
    super ErrorClass.dmn_evaluation 422 "dmn_evaluation_error"
      (evaluation decision_model_id reasons) message

abbrev pub input_value_violation_error :
    (message : String) (input_id : Option String) → Body → BfwEngineError
input_value_violation_error message input_id =
    super ErrorClass.input_value_violation 422 "input_value_violation" (input input_id) message
