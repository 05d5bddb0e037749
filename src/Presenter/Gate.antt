-- ===== src/Presenter/Gate.antt =====
-- presenters/error_presenter.py: the bodies for the exceptions of the tokens and of the rules.
use Prim.Native.String.{◌++◌}
use night_ledger.Prelude.{String, [], ◌∷◌}
use night_ledger.Presenter.{ErrorBody, plain_detail, body_of, body_with}

unfoldable pub present_execution_token_missing_error : ErrorBody
present_execution_token_missing_error =
    body_with "EXECUTION_TOKEN_MISSING" "Execution token is required" "authorization" "auth_error"

unfoldable pub present_execution_token_invalid_error : ErrorBody
present_execution_token_invalid_error =
    body_with "EXECUTION_TOKEN_INVALID" "Execution token is invalid" "authorization" "auth_error"

unfoldable pub present_execution_token_expired_error : ErrorBody
present_execution_token_expired_error =
    body_with "EXECUTION_TOKEN_EXPIRED" "Execution token is expired" "authorization" "auth_error"

unfoldable pub present_execution_token_replayed_error : ErrorBody
present_execution_token_replayed_error =
    body_with "EXECUTION_TOKEN_REPLAYED" "Execution token has already been used" "authorization"
      "auth_error"

unfoldable pub present_execution_action_mismatch_error : (expected held : String) → ErrorBody
present_execution_action_mismatch_error expected held =
    body_with "EXECUTION_ACTION_MISMATCH"
      ("Execution token action '" ++ held ++ "' does not match expected '" ++ expected ++ "'")
      "authorization" "auth_error"

unfoldable pub present_execution_decision_not_approved_error : String → ErrorBody
present_execution_decision_not_approved_error decision_id =
    body_with "EXECUTION_DECISION_NOT_APPROVED"
      ("Decision '" ++ decision_id ++ "' is not approved for execution") "decision_id"
      "state_conflict"

unfoldable pub present_execution_payload_mismatch_error : ErrorBody
present_execution_payload_mismatch_error =
    body_with "EXECUTION_PAYLOAD_MISMATCH" "Execution token payload binding does not match request"
      "payload" "auth_error"

unfoldable pub present_execution_token_misconfigured_error : String → ErrorBody
present_execution_token_misconfigured_error message =
    body_with "EXECUTION_TOKEN_MISCONFIGURED" message "configuration" "configuration_error"

unfoldable pub present_rule_configuration_error : String → ErrorBody
present_rule_configuration_error message =
    body_with "RULE_CONFIGURATION_ERROR" message "configuration" "configuration_error"

unfoldable pub present_rule_expression_error : (rule_id expression message : String) → ErrorBody
present_rule_expression_error rule_id expression message =
    body_of "RULE_EXPRESSION_INVALID" message
      (record (plain_detail "rule.when" message "configuration_error" "RULE_EXPRESSION_INVALID") {
        extra = ("rule_id", rule_id) ∷ ("expression", expression) ∷ [];
      })

unfoldable pub present_rule_input_error : (path message : String) → ErrorBody
present_rule_input_error path message =
    body_of "REQUEST_VALIDATION_ERROR" "authorize_action payload failed validation"
      (plain_detail path message "missing" "MISSING_RULE_INPUT")

unfoldable pub present_policy_catalog_version_mismatch_error :
    (expected actual : String) → ErrorBody
present_policy_catalog_version_mismatch_error expected actual =
    let message =
      "Policy catalog version mismatch: expected '" ++ expected ++ "', current '" ++ actual
      ++ "'" in
    body_of "POLICY_CATALOG_VERSION_MISMATCH" message
      (record (plain_detail "context.policy_catalog_version" message "state_conflict"
        "POLICY_CATALOG_VERSION_MISMATCH") {
          extra = ("expected", expected) ∷ ("actual", actual) ∷ [];
        })
