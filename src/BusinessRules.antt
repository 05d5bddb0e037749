-- ===== src/BusinessRules.antt =====
-- services/business_rules_service.py: the governance rules that an event must meet to be ingested.
-- The violations are collected in the order of the source; a run that cannot be projected raises at
-- once.
pub mod Admission
pub mod Projectable
pub mod Unprojectable
use Prim.Native.String.{◌++◌ as concat}
use night_ledger.Prelude.{
  String, Bool, true, false, not, ◌&&◌, ◌||◌, Option, none, some, List, [], ◌∷◌, ◌++◌, is_none,
  is_some, is_empty, get_last?, find?, str_eq, opt_eq, if◌then◌else◌,
}
use night_ledger.Schema.{
  EventPayload, StoredEvent, EventMeta, is_summary, is_action, is_approval_requested,
  is_approval_resolved, is_pending, is_not_required, is_high,
}
use night_ledger.Errors.{
  Result, ok, raise, Error, InconsistentRunState, BusinessRuleViolationDetail,
  business_rule_validation, inconsistent_run_state, ◌>>=◌,
}
use night_ledger.RunStatus.{
  RunWorkflowStatus, expired, stopped, completed, RunStatusProjection, PendingApprovalContext,
  project_run_status, status_text, is_missing,
}
use night_ledger.EventStore.Contract.{has_id}

abbrev pub Violations : Type 0
Violations = List BusinessRuleViolationDetail

abbrev pub violation : (path message code rule_id : String) → BusinessRuleViolationDetail
violation path message code rule_id = record {
  path = path;
  message = message;
  type = "state_conflict";
  code = code;
  rule_id = rule_id;
}

-- `if test: violations.append(v)`
abbrev pub when : Bool → BusinessRuleViolationDetail → Violations
when b v = if b then v ∷ [] else []

-- `_TERMINAL_STEP_STATUS.get(step)`
unfoldable pub terminal_step : String → Option RunWorkflowStatus
terminal_step step =
    if str_eq step "run_expired"
    then some expired
    else if str_eq step "approval_expired"
    then some expired
    else if str_eq step "run_stopped"
    then some stopped
    else if str_eq step "approval_rejected"
    then some stopped
    else none

abbrev pub meta_terminal : Option EventMeta → Option RunWorkflowStatus
meta_terminal none = none
meta_terminal (some meta) = terminal_step meta.step

unfoldable pub terminal_status_from_event_payload : EventPayload → Option RunWorkflowStatus
unfolding terminal_step
terminal_status_from_event_payload payload =
    if is_summary payload.type then some completed else meta_terminal payload.meta

unfoldable pub rule_id_for_code : String → String
rule_id_for_code code =
    if str_eq code "NO_PENDING_APPROVAL"
    then "RULE-GATE-002"
    else if str_eq code "DUPLICATE_PENDING_APPROVAL"
    then "RULE-GATE-001"
    else if str_eq code "INVALID_APPROVAL_TRANSITION"
    then "RULE-GATE-004"
    else if str_eq code "APPROVAL_DECISION_ID_MISMATCH"
    then "RULE-GATE-011"
    else if str_eq code "MISSING_APPROVER_ID"
    then "RULE-GATE-007"
    else if str_eq code "MISSING_APPROVAL_TIMESTAMP"
    then "RULE-GATE-008"
    else if str_eq code "TERMINAL_STATE_CONFLICT"
    then "RULE-GATE-005"
    else "RULE-GATE-002"

unfoldable pub wrap_inconsistency : InconsistentRunState → Error
unfolding rule_id_for_code
wrap_inconsistency x = business_rule_validation (
    record {
      path = x.detail_path;
      message = x.detail_message;
      type = x.detail_type;
      code = x.detail_code;
      rule_id = rule_id_for_code x.detail_code;
    }
    ∷ [])

abbrev pub projected : Result RunStatusProjection → Result (Option RunStatusProjection)
projected (ok p) = ok (some p)
projected (raise (inconsistent_run_state x)) = raise (wrap_inconsistency x)
projected (raise e) = raise e

unfoldable pub project_existing_run_status : List StoredEvent → Result (Option RunStatusProjection)
unfolding wrap_inconsistency
project_existing_run_status [] = ok none
project_existing_run_status (e ∷ es) = projected (project_run_status (e ∷ es))

unfoldable pub find_event_by_id : List StoredEvent → Option String → Option StoredEvent
find_event_by_id events none = none
find_event_by_id events (some event_id) = find? (has_id event_id) events

abbrev pub pending_of : Option RunStatusProjection → Option PendingApprovalContext
pending_of none = none
pending_of (some p) = p.pending_approval

unfoldable pub terminal_message : RunWorkflowStatus → String
terminal_message t =
    concat "event stream continued after terminal status '" (concat (status_text t) "'")

abbrev pub continued : Option RunWorkflowStatus → Violations
continued none = []
continued (some t) =
    violation "workflow_status" (terminal_message t) "TERMINAL_STATE_CONFLICT" "RULE-GATE-005" ∷ []

abbrev pub last_terminal : Option StoredEvent → Option RunWorkflowStatus
last_terminal none = none
last_terminal (some e) = terminal_status_from_event_payload e.payload

-- The last event of the run must not have ended it.
unfoldable pub terminal_violations : List StoredEvent → Violations
unfolding terminal_status_from_event_payload
terminal_violations existing = continued (last_terminal (get_last? existing))

unfoldable pub requested_violations : EventPayload → Violations
requested_violations event =
    if is_approval_requested event.type
    then when (not event.requires_approval) (
        violation "requires_approval" "approval_requested must set requires_approval=true"
          "INVALID_APPROVAL_TRANSITION" "RULE-GATE-001")
      ++ when (not (is_pending event.approval.status)) (
          violation "approval.status" "approval_requested must use approval.status='pending'"
            "INVALID_APPROVAL_TRANSITION" "RULE-GATE-001")
    else []

abbrev pub event_decision : Option StoredEvent → Option String
event_decision none = none
event_decision (some e) = e.payload.approval.decision_id

abbrev pub decision_differs : Option String → Option String → Bool
decision_differs none given = false
decision_differs (some d) given = not (opt_eq given (some d))

-- Is there a pending approval, and is it of the same decision?
unfoldable pub target_violations :
    EventPayload → List StoredEvent → Option PendingApprovalContext → Violations
unfolding find_event_by_id
target_violations event existing none =
    violation "approval" "approval_resolved encountered without pending approval"
      "NO_PENDING_APPROVAL" "RULE-GATE-002"
    ∷ []
target_violations event existing (some pending) =
    when
      (decision_differs (event_decision (find_event_by_id existing (some pending.event_id)))
        event.approval.decision_id)
      (violation "approval.decision_id"
        "approval_resolved decision_id does not match active pending approval"
        "APPROVAL_DECISION_ID_MISMATCH" "RULE-GATE-011")

unfoldable pub signature_violations : EventPayload → Violations
signature_violations event =
    when (is_missing event.approval.resolved_by) (
      violation "approval.resolved_by" "approval_resolved is missing approver identity"
        "MISSING_APPROVER_ID" "RULE-GATE-007")
    ++ when (is_none event.approval.resolved_at) (
        violation "approval.resolved_at" "approval_resolved is missing resolution timestamp"
          "MISSING_APPROVAL_TIMESTAMP" "RULE-GATE-008")

unfoldable pub resolved_violations : EventPayload → List StoredEvent → Result Violations
unfolding target_violations signature_violations
resolved_violations event existing =
    if is_approval_resolved event.type
    then (do
      projection ← project_existing_run_status existing
      ok (target_violations event existing (pending_of projection) ++ signature_violations event))
    else ok []

unfoldable pub summary_violations : EventPayload → List StoredEvent → Result Violations
summary_violations event existing =
    if is_summary event.type
    then (do
      projection ← project_existing_run_status existing
      ok (
          when event.requires_approval (
            violation "requires_approval" "summary events must set requires_approval=false"
              "INVALID_SUMMARY_COMPLETION" "RULE-GATE-010")
          ++ (when (not (is_not_required event.approval.status)) (
                violation "approval.status" "summary events must use approval.status='not_required'"
                  "INVALID_SUMMARY_COMPLETION" "RULE-GATE-010")
              ++ when (is_some (pending_of projection)) (
                  violation "approval"
                    "summary cannot complete a run while approval is still pending"
                    "PENDING_APPROVAL_EXISTS" "RULE-GATE-010"))))
    else ok []

unfoldable pub risk_violations : EventPayload → Violations
risk_violations event =
    when
      (is_action event.type
        && (is_high event.risk_level || event.requires_approval)
        && is_empty event.evidence)
      (violation "evidence" "risky action events must include at least one evidence item"
        "MISSING_RISK_EVIDENCE" "RULE-RISK-005")

abbrev pub raise_violations : Violations → Result (Unit {0})
raise_violations [] = ok tt
raise_violations (v ∷ vs) = raise (business_rule_validation (v ∷ vs))

unfoldable pub validate_event_business_rules : EventPayload → List StoredEvent → Result (Unit {0})
validate_event_business_rules event existing = do
  resolved ← resolved_violations event existing
  completed_run ← summary_violations event existing
  raise_violations (
      terminal_violations existing
      ++ (requested_violations event ++ (resolved ++ (completed_run ++ risk_violations event))))
