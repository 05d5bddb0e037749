-- ===== src/RunStatus.antt =====
-- services/run_status_service.py: the workflow status of a run, projected from its events.
-- The loop's local variables are a record, its body is `step`, and the loop is `project_from`.
pub mod Laws
pub mod Pending
pub mod Machine
use Prim.Native.String.{◌++◌}
use night_ledger.Prelude.{
  String, Bool, true, false, not, ◌&&◌, ◌||◌, Option, none, some, List, [], ◌∷◌, str_eq, is_some,
  is_none, if◌then◌else◌,
}
use night_ledger.Prelude.Text.{is_blank}
use night_ledger.Prelude.Time.{format_timestamp}
use night_ledger.Schema.{
  EventType, ApprovalStatus, Approval, EventPayload, EventMeta, StoredEvent, is_summary,
  is_approval_requested, is_approval_resolved, is_pending, is_decided, is_approved,
}
use night_ledger.Errors.{Result, ok, conflict, ◌>>=◌}

pub data RunWorkflowStatus : Type 0 where
  running paused approved rejected stopped expired completed : RunWorkflowStatus

pub record PendingApprovalContext : Type 0 where
  pub event_id : String
  pub requested_by : Option String
  pub requested_at : String
  pub reason : Option String

pub record RunStatusProjection : Type 0 where
  pub status : RunWorkflowStatus
  pub pending_approval : Option PendingApprovalContext

unfoldable pub status_text : RunWorkflowStatus → String
status_text running = "running"
status_text paused = "paused"
status_text approved = "approved"
status_text rejected = "rejected"
status_text stopped = "stopped"
status_text expired = "expired"
status_text completed = "completed"

abbrev pub status_is_rejected : RunWorkflowStatus → Bool
status_is_rejected rejected = true
status_is_rejected _ = false

-- `_TERMINAL_STEP_STATUS.get(step)`
unfoldable pub terminal_step_status : String → Option RunWorkflowStatus
terminal_step_status step =
    if str_eq step "run_expired"
    then some expired
    else if str_eq step "approval_expired"
    then some expired
    else if str_eq step "run_stopped"
    then some stopped
    else if str_eq step "approval_rejected"
    then some stopped
    else none

abbrev pub meta_status : Option EventMeta → Option RunWorkflowStatus
meta_status none = none
meta_status (some meta) = terminal_step_status meta.step

unfoldable pub to_terminal_status : EventPayload → Option RunWorkflowStatus
to_terminal_status payload =
    if is_summary payload.type then some completed else meta_status payload.meta

unfoldable pub is_pending_signal : EventType → ApprovalStatus → Bool → Bool
is_pending_signal event_type approval_status requires_approval =
    is_approval_requested event_type || (requires_approval && is_pending approval_status)

unfoldable pub is_resolution_signal : EventType → ApprovalStatus → Bool → Bool
is_resolution_signal event_type approval_status requires_approval =
    is_approval_resolved event_type || (requires_approval && is_decided approval_status)

-- `approval.get("reason") or details`: an empty reason is falsy.
abbrev pub reason_or : Option String → String → Option String
reason_or none details = some details
reason_or (some reason) details = if str_eq reason "" then some details else some reason

unfoldable pub pending_context_from_event : StoredEvent → PendingApprovalContext
pending_context_from_event event =
    let approval = event.payload.approval in
    record {
      event_id = event.id;
      requested_by = approval.requested_by;
      requested_at = format_timestamp event.timestamp;
      reason = reason_or approval.reason event.payload.details;
    }

-- The local variables of the loop.
pub record Progress : Type 0 where
  pub status : RunWorkflowStatus
  pub pending_approval : Option PendingApprovalContext
  pub terminal_status : Option RunWorkflowStatus

abbrev pub start : Progress
start = record { status = running; pending_approval = none; terminal_status = none }

-- `resolved_by is None or not resolved_by.strip()`
abbrev pub is_missing : Option String → Bool
is_missing none = true
is_missing (some s) = is_blank s

-- The branch for a resolution.
unfoldable pub resolve : Progress → Approval → Result Progress
resolve p approval =
    if not (is_decided approval.status)
    then conflict "approval.status" "approval_resolved must use approved or rejected status"
        "INVALID_APPROVAL_TRANSITION"
    else if is_none p.pending_approval
    then conflict "approval" "approval_resolved encountered without pending approval"
        "NO_PENDING_APPROVAL"
    else if is_missing approval.resolved_by
    then conflict "approval.resolved_by" "approval_resolved is missing approver identity"
        "MISSING_APPROVER_ID"
    else if is_none approval.resolved_at
    then conflict "approval.resolved_at" "approval_resolved is missing resolution timestamp"
        "MISSING_APPROVAL_TIMESTAMP"
    else ok (record p {
      pending_approval = none;
      status = if is_approved approval.status then approved else rejected;
    })

-- The branch for a request.
unfoldable pub request : Progress → StoredEvent → Result Progress
request p event =
    if is_some p.pending_approval
    then conflict "approval" "multiple pending approvals encountered without resolution"
        "DUPLICATE_PENDING_APPROVAL"
    else ok
        (record p { pending_approval = some (pending_context_from_event event); status = paused })

abbrev pub after_approved : RunWorkflowStatus → RunWorkflowStatus
after_approved approved = running
after_approved s = s

-- The branch for any other event.
unfoldable pub observe : Progress → Progress
observe p =
    if is_some p.pending_approval
    then record p { status = paused }
    else record p { status = after_approved p.status }

abbrev pub payload_is_resolution : EventPayload → Bool
payload_is_resolution payload =
    is_resolution_signal payload.type payload.approval.status payload.requires_approval

abbrev pub payload_is_pending : EventPayload → Bool
payload_is_pending payload =
    is_pending_signal payload.type payload.approval.status payload.requires_approval

-- The body of the loop for an event that does not end the run.
unfoldable pub advance : Progress → StoredEvent → Result Progress
advance p event =
    if payload_is_resolution event.payload
    then resolve p event.payload.approval
    else if payload_is_pending event.payload
    then request p event
    else ok (observe p)

abbrev pub continued_after {ℓ} : {A : Type ℓ} → RunWorkflowStatus → Result A
continued_after terminal =
    conflict "workflow_status"
      ("event stream continued after terminal status '" ++ status_text terminal ++ "'")
      "TERMINAL_STATE_CONFLICT"

unfoldable pub step : Progress → StoredEvent → Result Progress
step p event = elim p.terminal_status [
  | some terminal ↦ continued_after terminal
  | none ↦ elim (to_terminal_status event.payload) [
    | some next ↦
        ok (record { status = next; pending_approval = none; terminal_status = some next })
    | none ↦
        if status_is_rejected p.status
        then conflict "workflow_status"
            "event stream continued after rejection without terminal stop" "REJECTED_STATE_CONFLICT"
        else advance p event
  ]
]

unfoldable pub project_from : Progress → List StoredEvent → Result Progress
project_from p [] = ok p
project_from p (event ∷ events) = step p event >>= λ q. project_from q events

abbrev pub projection : Progress → RunStatusProjection
projection p = record { status = p.status; pending_approval = p.pending_approval }

unfoldable pub project_run_status : List StoredEvent → Result RunStatusProjection
unfolding project_from
project_run_status events = do p ← project_from start events; ok (projection p)
