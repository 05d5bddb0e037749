-- ===== src/Approval/Register.antt =====
-- services/approval_service.py: the registration of an approval request under a decision
-- identifier.
pub mod Unique
use Prim.Native.String.{◌++◌}
use night_ledger.Prelude.{
  ℕ, ◌+◌, String, Bool, true, false, not, ◌&&◌, ◌||◌, Option, none, some, List, [], ◌∷◌, map,
  filter, length, leb, ltb, str_eq, if◌then◌else◌, is_empty, get_last?, text_leb,
}
use night_ledger.Prelude.Sort.{sort_by}
use night_ledger.Prelude.Time.{Datetime, milliseconds, format_timestamp}
use night_ledger.Schema.{EventPayload, StoredEvent, RiskLevel, approval_requested, agent, pending}
use night_ledger.Errors.{Result, ok, raise, duplicate_approval}
use night_ledger.Exec.{Exec, pure, lift, ◌>>=◌, ◌>>◌}
use night_ledger.EventStore.{EventStore}
use night_ledger.RunStatus.{
  RunWorkflowStatus, paused, RunStatusProjection, PendingApprovalContext, project_run_status,
}
use night_ledger.Audit.{sorted_run_ids}
use night_ledger.Ingest.{Validated, validate_event_payload}
use night_ledger.Approval.{
  Call, is_pending_signal, compact_time, of_decision_id, is_lifecycle, find_event_by_id,
}
use night_ledger.Approval.Drafts.{latest_timestamp}
use night_ledger.Approval.Continuation.{append_or_fail}

-- What a client asks to be approved.
pub record ApprovalRequest : Type 0 where
  pub decision_id : String
  pub run_id : String
  pub requested_by : String
  pub title : String
  pub details : String
  pub risk_level : RiskLevel
  pub reason : Option String

-- `latest_reason`: the last event of the lifecycle decides.
unfoldable pub latest_reason : List StoredEvent → String
latest_reason lifecycle = elim (get_last? lifecycle) [
  | none ↦ "resolved"
  | some e ↦ if is_pending_signal e then "pending" else "resolved"
]

-- A millisecond after the last event of the run, if the clock is not past that event.
unfoldable pub request_time : Datetime → List StoredEvent → Datetime
unfolding latest_timestamp
request_time now run_events =
    if is_empty run_events
    then now
    else if leb now (latest_timestamp run_events)
    then latest_timestamp run_events + milliseconds 1
    else now

unfoldable pub build_decision_pending_event_id : String → Datetime → String → String
unfolding compact_time
build_decision_pending_event_id decision_id at uuid =
    "evt_"
    ++ (decision_id ++ ("_pending_" ++ (compact_time (format_timestamp at) ++ ("_" ++ uuid))))

unfoldable pub request_draft : Call → ApprovalRequest → List StoredEvent → EventPayload
unfolding request_time build_decision_pending_event_id
request_draft call asked run_events =
    let at = request_time call.now run_events in
    record {
      id = build_decision_pending_event_id asked.decision_id at call.uuid8;
      run_id = asked.run_id;
      timestamp = at;
      type = approval_requested;
      actor = agent;
      title = asked.title;
      details = asked.details;
      confidence = none;
      risk_level = some asked.risk_level;
      requires_approval = true;
      approval = record {
        status = pending;
        decision_id = some asked.decision_id;
        requested_by = some asked.requested_by;
        resolved_by = none;
        resolved_at = none;
        reason = asked.reason;
      };
      evidence = [];
      meta = some (record { workflow = "approval_gate"; step = "approval_requested" });
    }

pub record Registration : Type 0 where
  pub decision_id : String
  pub event_id : String
  pub run_id : String

module _ {S : Type 0} (store : EventStore S) (model_validate : EventPayload → Validated)
    (call : Call) where
  abbrev pub append_request : ApprovalRequest → List StoredEvent → Exec S Registration
  unfolding request_draft
  append_request asked run_events = do
    payload ← lift (validate_event_payload model_validate (request_draft call asked run_events))
    stored ← append_or_fail store model_validate call "storage backend append failed" payload
    pure (record { decision_id = asked.decision_id; event_id = stored.id; run_id = asked.run_id })

  unfoldable pub register_pending_approval_request : ApprovalRequest → Exec S Registration
  unfolding latest_reason
  register_pending_approval_request asked s =
      let lifecycle =
        filter is_lifecycle (filter (of_decision_id asked.decision_id) (store.list_all s)) in
      if is_empty lifecycle
      then append_request asked (store.list_by_run_id s asked.run_id) s
      else (s, raise (duplicate_approval asked.decision_id "decision_id" (latest_reason lifecycle)))
