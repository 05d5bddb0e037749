-- ===== src/Presenter/Handle.antt =====
-- main.py: the exception handlers.
use night_ledger.Prelude.{Option, none}
use night_ledger.Errors.{
  Error, schema_validation, business_rule_validation, storage_write, storage_read, duplicate_event,
  run_not_found, inconsistent_run_state, approval_not_found, ambiguous_event_id,
  no_pending_approval, duplicate_approval, execution_token_missing, execution_token_invalid,
  execution_token_expired, execution_token_replayed, execution_payload_mismatch,
  execution_action_mismatch, execution_decision_not_approved, execution_token_misconfigured,
  rule_configuration, rule_expression, rule_input, policy_catalog_version_mismatch, uncaught,
}
use night_ledger.Presenter.{
  Response, respond, present_schema_validation_error, present_business_rule_validation_error,
  present_storage_write_error, present_storage_read_error, present_duplicate_event_error,
  present_run_not_found_error, present_inconsistent_run_state_error,
  present_approval_not_found_error, present_ambiguous_event_id_error,
  present_no_pending_approval_error, present_duplicate_approval_error,
}
use night_ledger.Presenter.Gate.{
  present_execution_token_missing_error, present_execution_token_invalid_error,
  present_execution_token_expired_error, present_execution_token_replayed_error,
  present_execution_action_mismatch_error, present_execution_decision_not_approved_error,
  present_execution_payload_mismatch_error, present_execution_token_misconfigured_error,
  present_rule_configuration_error, present_rule_expression_error, present_rule_input_error,
  present_policy_catalog_version_mismatch_error,
}

-- The handler of main.py for an exception, with its presenter.
unfoldable pub handle : Error → Option Response
unfolding present_schema_validation_error present_business_rule_validation_error
    present_storage_write_error present_storage_read_error present_duplicate_event_error
    present_run_not_found_error present_inconsistent_run_state_error
    present_approval_not_found_error present_ambiguous_event_id_error
    present_no_pending_approval_error present_duplicate_approval_error
    present_execution_token_missing_error present_execution_token_invalid_error
    present_execution_token_expired_error present_execution_token_replayed_error
    present_execution_action_mismatch_error present_execution_decision_not_approved_error
    present_execution_payload_mismatch_error present_execution_token_misconfigured_error
    present_rule_configuration_error present_rule_expression_error present_rule_input_error
    present_policy_catalog_version_mismatch_error
handle (schema_validation details) = respond 422 (present_schema_validation_error details)
handle (business_rule_validation details) =
    respond 409 (present_business_rule_validation_error details)
handle (storage_write message) = respond 500 (present_storage_write_error message)
handle (storage_read message) = respond 500 (present_storage_read_error message)
handle (duplicate_event event_id run_id) =
    respond 409 (present_duplicate_event_error event_id run_id)
handle (run_not_found run_id) = respond 404 (present_run_not_found_error run_id)
handle (inconsistent_run_state state) = respond 409 (present_inconsistent_run_state_error state)
handle (approval_not_found event_id detail_path) =
    respond 404 (present_approval_not_found_error event_id detail_path)
handle (ambiguous_event_id event_id) = respond 409 (present_ambiguous_event_id_error event_id)
handle (no_pending_approval event_id) = respond 409 (present_no_pending_approval_error event_id)
handle (duplicate_approval event_id detail_path reason) =
    respond 409 (present_duplicate_approval_error event_id detail_path reason)
handle execution_token_missing = respond 403 present_execution_token_missing_error
handle execution_token_invalid = respond 403 present_execution_token_invalid_error
handle execution_token_expired = respond 403 present_execution_token_expired_error
handle execution_token_replayed = respond 403 present_execution_token_replayed_error
handle (execution_action_mismatch expected held) =
    respond 403 (present_execution_action_mismatch_error expected held)
handle (execution_decision_not_approved decision_id) =
    respond 409 (present_execution_decision_not_approved_error decision_id)
handle execution_payload_mismatch = respond 403 present_execution_payload_mismatch_error
handle (execution_token_misconfigured message) =
    respond 500 (present_execution_token_misconfigured_error message)
handle (rule_configuration message) = respond 500 (present_rule_configuration_error message)
handle (rule_expression rule_id expression message) =
    respond 500 (present_rule_expression_error rule_id expression message)
handle (rule_input path message) = respond 422 (present_rule_input_error path message)
handle (policy_catalog_version_mismatch expected actual) =
    respond 409 (present_policy_catalog_version_mismatch_error expected actual)
handle (uncaught name) = none
