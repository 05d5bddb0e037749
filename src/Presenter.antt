-- ===== src/Presenter.antt =====
-- presenters/error_presenter.py and the exception handlers of main.py: the reply to a request that
-- raised. A JSON object of the reply is a record; the keys that only some details have are in
-- `extra`. What Starlette replies to other exceptions is left out.
pub mod Gate
pub mod Handle
pub mod Validation
pub mod Raises
pub mod Refusals
use Prim.Native.String.{◌++◌}
use night_ledger.Prelude.{
  ℕ, String, Bool, true, false, ◌&&◌, Option, none, some, List, [], ◌∷◌, map, str_eq, if◌then◌else◌,
}
use night_ledger.Prelude.Dict.{Dict}
use night_ledger.Errors.{
  Error, InconsistentRunState, ValidationDetail, BusinessRuleViolationDetail, schema_validation,
  business_rule_validation, storage_write, storage_read, duplicate_event, run_not_found,
  inconsistent_run_state, approval_not_found, ambiguous_event_id, no_pending_approval,
  duplicate_approval, execution_token_missing, execution_token_invalid, execution_token_expired,
  execution_token_replayed, execution_payload_mismatch, execution_action_mismatch,
  execution_decision_not_approved, execution_token_misconfigured, rule_configuration,
  rule_expression, rule_input, policy_catalog_version_mismatch, uncaught,
}

pub record Detail : Type 0 where
  pub path : String
  pub message : String
  pub type : String
  pub code : String
  pub extra : Dict String

-- The object under `error`.
pub record ErrorBody : Type 0 where
  pub code : String
  pub message : String
  pub rule_ids : Option (List String)
  pub details : List Detail

pub record Response : Type 0 where
  pub status_code : ℕ
  pub content : ErrorBody

-- `str(exc)` of a DuplicateApprovalError
unfoldable pub duplicate_approval_text : (event_id detail_path reason : String) → String
duplicate_approval_text event_id detail_path reason =
    if str_eq detail_path "decision_id" && str_eq reason "pending"
    then "Approval for decision '" ++ event_id ++ "' is already pending"
    else if str_eq detail_path "decision_id" && str_eq reason "exists"
    then "Approval for decision '" ++ event_id ++ "' already exists"
    else if str_eq detail_path "decision_id"
    then "Approval for decision '" ++ event_id ++ "' has already been resolved"
    else if str_eq reason "pending"
    then "Approval for event '" ++ event_id ++ "' is already pending"
    else if str_eq reason "exists"
    then "Approval for event '" ++ event_id ++ "' already exists"
    else "Approval for event '" ++ event_id ++ "' has already been resolved"

-- The message of `present_duplicate_approval_error`.
unfoldable pub duplicate_approval_message : String → String
duplicate_approval_message reason =
    if str_eq reason "pending"
    then "Approval already pending"
    else if str_eq reason "exists"
    then "Approval already exists"
    else "Approval already resolved"

abbrev pub plain_detail : (path message type code : String) → Detail
plain_detail path message type code = record {
  path = path;
  message = message;
  type = type;
  code = code;
  extra = [];
}

-- A body with one detail.
abbrev pub body_of : (code message : String) → Detail → ErrorBody
body_of code message detail = record {
  code = code;
  message = message;
  rule_ids = none;
  details = detail ∷ [];
}

abbrev pub respond : ℕ → ErrorBody → Option Response
respond status body = some (record { status_code = status; content = body })

-- The code and the text of an exception, for a body and its one detail.
abbrev pub body_with : (code text path type : String) → ErrorBody
body_with code text path type = body_of code text (plain_detail path text type code)

abbrev pub schema_detail : ValidationDetail → Detail
schema_detail d = plain_detail d.path d.message d.type d.code

abbrev pub rule_detail : BusinessRuleViolationDetail → Detail
rule_detail d = record (plain_detail d.path d.message d.type d.code) {
  extra = ("rule_id", d.rule_id) ∷ [];
}

unfoldable pub present_schema_validation_error : List ValidationDetail → ErrorBody
present_schema_validation_error details = record {
  code = "SCHEMA_VALIDATION_ERROR";
  message = "Event payload failed schema validation";
  rule_ids = none;
  details = map schema_detail details;
}

unfoldable pub present_business_rule_validation_error : List BusinessRuleViolationDetail → ErrorBody
present_business_rule_validation_error details = record {
  code = "BUSINESS_RULE_VIOLATION";
  message = "Event payload violates workflow governance rules";
  rule_ids = none;
  details = map rule_detail details;
}

unfoldable pub present_storage_write_error : String → ErrorBody
present_storage_write_error message =
    body_of "STORAGE_WRITE_ERROR" "Failed to persist event"
      (plain_detail "storage" message "storage_failure" "STORAGE_APPEND_FAILED")

unfoldable pub present_storage_read_error : String → ErrorBody
present_storage_read_error message =
    body_of "STORAGE_READ_ERROR" "Failed to load events"
      (plain_detail "storage" message "storage_failure" "STORAGE_READ_FAILED")

unfoldable pub present_duplicate_event_error : (event_id run_id : String) → ErrorBody
present_duplicate_event_error event_id run_id =
    body_of "DUPLICATE_EVENT_ID" "Event ID already exists for this run" (
      plain_detail "event_id"
        ("Event ID '" ++ event_id ++ "' already exists for run '" ++ run_id ++ "'")
        "duplicate_event" "DUPLICATE_EVENT_ID")

unfoldable pub present_run_not_found_error : String → ErrorBody
present_run_not_found_error run_id = body_of "RUN_NOT_FOUND" "Run not found" (
    plain_detail "run_id" ("No events found for run '" ++ run_id ++ "'") "not_found"
      "RUN_NOT_FOUND")

unfoldable pub present_inconsistent_run_state_error : InconsistentRunState → ErrorBody
present_inconsistent_run_state_error state =
    body_of "INCONSISTENT_RUN_STATE" "Run events contain inconsistent approval state"
      (plain_detail state.detail_path state.detail_message state.detail_type state.detail_code)

unfoldable pub present_approval_not_found_error : (event_id detail_path : String) → ErrorBody
present_approval_not_found_error event_id detail_path =
    body_of "APPROVAL_NOT_FOUND" "Approval target not found" (
      plain_detail detail_path
        (if str_eq detail_path "decision_id"
          then "Approval decision '" ++ event_id ++ "' was not found"
          else "Approval target event '" ++ event_id ++ "' was not found")
        "not_found" "APPROVAL_NOT_FOUND")

unfoldable pub present_ambiguous_event_id_error : String → ErrorBody
present_ambiguous_event_id_error event_id =
    body_of "AMBIGUOUS_EVENT_ID" "Event ID maps to multiple runs" (
      plain_detail "event_id" ("Event ID '" ++ event_id ++ "' exists in multiple runs")
        "state_conflict" "AMBIGUOUS_EVENT_ID")

unfoldable pub present_no_pending_approval_error : String → ErrorBody
present_no_pending_approval_error event_id =
    record (body_of "NO_PENDING_APPROVAL" "No pending approval for target event" (
      plain_detail "event_id" ("Event '" ++ event_id ++ "' is not the currently pending approval")
        "state_conflict" "NO_PENDING_APPROVAL")) { rule_ids = some ("RULE-GATE-002" ∷ []) }

unfoldable pub present_duplicate_approval_error : (event_id detail_path reason : String) → ErrorBody
unfolding duplicate_approval_text duplicate_approval_message
present_duplicate_approval_error event_id detail_path reason =
    record (body_of "DUPLICATE_APPROVAL" (duplicate_approval_message reason) (
      plain_detail detail_path (duplicate_approval_text event_id detail_path reason)
        "state_conflict" "DUPLICATE_APPROVAL")) { rule_ids = some ("RULE-GATE-003" ∷ []) }
