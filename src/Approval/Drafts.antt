-- ===== src/Approval/Drafts.antt =====
-- services/approval_service.py: the events that a resolution appends, before their validation.
use Prim.Native.String.{◌++◌}
use night_ledger.Prelude.{
  ◌+◌, String, true, false, Option, none, some, List, [], ◌∷◌, ltb, if◌then◌else◌,
}
use night_ledger.Prelude.Text.{is_blank}
use night_ledger.Prelude.Time.{Datetime, milliseconds, format_timestamp}
use night_ledger.Schema.{
  EventPayload, StoredEvent, Approval, ApprovalStatus, not_required, approved, rejected,
  approval_resolved, action, summary, error, human, agent, system, low, medium, high, log, artifact,
}
use night_ledger.Approval.{Call, resolution_prefix, compact_time}

-- `Literal["approved", "rejected"]`
pub data ApprovalDecision : Type 0 where
  approve reject : ApprovalDecision

abbrev pub decided_status : ApprovalDecision → ApprovalStatus
decided_status approve = approved
decided_status reject = rejected

unfoldable pub decision_text : ApprovalDecision → String
decision_text approve = "approved"
decision_text reject = "rejected"

unfoldable pub decision_step : ApprovalDecision → String
decision_step approve = "approval_approved"
decision_step reject = "approval_rejected"

unfoldable pub decision_title : ApprovalDecision → String
decision_title approve = "Approval approved"
decision_title reject = "Approval rejected"

abbrev pub demo_run_id : String
demo_run_id = "run_triage_inbox_demo_1"

abbrev pub demo_approval_event_id : String
demo_approval_event_id = "evt_triage_inbox_003"

-- `max(event.timestamp for event in events)`, where there are some.
unfoldable pub latest_timestamp : List StoredEvent → Datetime
latest_timestamp [] = 0
latest_timestamp (e ∷ es) =
    let rest = latest_timestamp es in if ltb e.timestamp rest then rest else e.timestamp

-- A resolution is at least a millisecond later than all events of its run.
unfoldable pub resolution_time : Datetime → List StoredEvent → Datetime
unfolding latest_timestamp
resolution_time now run_events =
    let least = latest_timestamp run_events + milliseconds 1 in if ltb least now then now else least

unfoldable pub build_resolution_event_id : String → ApprovalDecision → Datetime → String → String
unfolding compact_time decision_text resolution_prefix
build_resolution_event_id target decision at uuid =
    resolution_prefix target
    ++ (decision_text decision ++ "_" ++ compact_time (format_timestamp at) ++ "_" ++ uuid)

abbrev pub resolution_details : Option String → ApprovalDecision → String → String
resolution_details none decision approver = decision_title decision ++ " by " ++ approver
resolution_details (some reason) decision approver =
    if is_blank reason then decision_title decision ++ " by " ++ approver else reason

unfoldable pub resolution_draft :
    Call → StoredEvent → List StoredEvent → ApprovalDecision → String → Option String → EventPayload
unfolding resolution_time build_resolution_event_id decision_step decision_title
resolution_draft call target run_events decision approver reason =
    let at = resolution_time call.now run_events in
    record {
      id = build_resolution_event_id target.id decision at call.uuid8;
      run_id = target.run_id;
      timestamp = at;
      type = approval_resolved;
      actor = human;
      title = decision_title decision;
      details = resolution_details reason decision approver;
      confidence = target.payload.confidence;
      risk_level = target.payload.risk_level;
      requires_approval = true;
      approval = record {
        status = decided_status decision;
        decision_id = target.payload.approval.decision_id;
        requested_by = target.payload.approval.requested_by;
        resolved_by = some approver;
        resolved_at = some at;
        reason = reason;
      };
      evidence = [];
      meta = some (record { workflow = "approval_gate"; step = decision_step decision });
    }

abbrev pub no_approval : Approval
no_approval = record {
  status = not_required;
  decision_id = none;
  requested_by = none;
  resolved_by = none;
  resolved_at = none;
  reason = none;
}

abbrev pub resume_draft : String → Datetime → Option String → EventPayload
resume_draft run_id resolved_at confidence = record {
  id = "evt_triage_inbox_004";
  run_id = run_id;
  timestamp = resolved_at + milliseconds 1;
  type = action;
  actor = agent;
  title = "Resume triage_inbox after approval";
  details = "Human approval received; sending final customer response.";
  confidence = confidence;
  risk_level = some medium;
  requires_approval = false;
  approval = no_approval;
  evidence =
      record { kind = log; label = "Post-approval execution log"; ref = "log://triage-inbox/004" }
      ∷ [];
  meta = some (record { workflow = "triage_inbox"; step = "resume_after_approval" });
}

abbrev pub complete_draft : String → Datetime → Option String → EventPayload
complete_draft run_id resolved_at confidence = record {
  id = "evt_triage_inbox_005";
  run_id = run_id;
  timestamp = resolved_at + milliseconds 2;
  type = summary;
  actor = agent;
  title = "triage_inbox run completed";
  details = "Workflow completed after human approval.";
  confidence = confidence;
  risk_level = some low;
  requires_approval = false;
  approval = no_approval;
  evidence =
      record {
        kind = artifact;
        label = "Final response receipt";
        ref = "artifact://triage-inbox/005";
      }
      ∷ [];
  meta = some (record { workflow = "triage_inbox"; step = "run_completed" });
}

abbrev pub error_draft : Call → String → Datetime → String → EventPayload
error_draft call run_id resolved_at details = record {
  id = "evt_triage_inbox_err_" ++ call.uuid10;
  run_id = run_id;
  timestamp = resolved_at + milliseconds 3;
  type = error;
  actor = system;
  title = "triage_inbox orchestration failed";
  details = "Post-approval continuation failed: " ++ details;
  confidence = none;
  risk_level = some high;
  requires_approval = false;
  approval = no_approval;
  evidence =
      record {
        kind = log;
        label = "Orchestration failure log";
        ref = "log://triage-inbox/orchestration-error";
      }
      ∷ [];
  meta = some (record { workflow = "triage_inbox"; step = "run_stopped" });
}
