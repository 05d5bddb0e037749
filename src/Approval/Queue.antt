-- ===== src/Approval/Queue.antt =====
-- services/approval_service.py: the list of the approvals that are pending.
pub mod Items
use night_ledger.Prelude.{
  ℕ, String, Bool, Option, none, some, List, [], ◌∷◌, ◌++◌, length, str_eq, if◌then◌else◌, text_leb,
}
use night_ledger.Prelude.Sort.{sort_by}
use night_ledger.Schema.{StoredEvent, RiskLevel}
use night_ledger.Errors.{Result, ok, conflict, ◌>>=◌}
use night_ledger.EventStore.{EventStore}
use night_ledger.RunStatus.{
  RunWorkflowStatus, paused, RunStatusProjection, PendingApprovalContext, project_run_status,
}
use night_ledger.Audit.{sorted_run_ids}
use night_ledger.Approval.{find_event_by_id}

pub record PendingApproval : Type 0 where
  pub event_id : String
  pub decision_id : Option String
  pub run_id : String
  pub requested_at : String
  pub requested_by : Option String
  pub title : String
  pub details : String
  pub reason : Option String
  pub risk_level : Option RiskLevel

-- `key=lambda item: (item["requested_at"], item["event_id"])`: texts.
abbrev pub queue_leb : PendingApproval → PendingApproval → Bool
queue_leb a b =
    if str_eq a.requested_at b.requested_at
    then text_leb a.event_id b.event_id
    else text_leb a.requested_at b.requested_at

unfoldable pub pending_item : PendingApprovalContext → StoredEvent → PendingApproval
pending_item context event = record {
  event_id = event.id;
  decision_id = event.payload.approval.decision_id;
  run_id = event.run_id;
  requested_at = context.requested_at;
  requested_by = context.requested_by;
  title = event.payload.title;
  details = event.payload.details;
  reason = context.reason;
  risk_level = event.payload.risk_level;
}

abbrev pub item_of_event :
    PendingApprovalContext → Option StoredEvent → Result (List PendingApproval)
item_of_event context none =
    conflict "approval" "pending approval event not found in run timeline" "MISSING_PENDING_EVENT"
item_of_event context (some event) = ok (pending_item context event ∷ [])

abbrev pub item_of_context :
    List StoredEvent → Option PendingApprovalContext → Result (List PendingApproval)
item_of_context run_events none = ok []
item_of_context run_events (some context) =
    item_of_event context (find_event_by_id run_events context.event_id)

abbrev pub item_of_projection :
    List StoredEvent → RunStatusProjection → Result (List PendingApproval)
item_of_projection run_events p = elim p.status [
  | paused ↦ item_of_context run_events p.pending_approval
  | _ ↦ ok []
]

-- What a run adds to the list: nothing, or its pending approval.
unfoldable pub items_of_run : List StoredEvent → Result (List PendingApproval)
unfolding find_event_by_id pending_item
items_of_run run_events = project_run_status run_events >>= item_of_projection run_events

module _ {S : Type 0} (store : EventStore S) (s : S) where
  unfoldable pub items_of_runs : List String → Result (List PendingApproval)
  unfolding items_of_run
  items_of_runs [] = ok []
  items_of_runs (run_id ∷ run_ids) = do
    items ← items_of_run (store.list_by_run_id s run_id)
    rest ← items_of_runs run_ids
    ok (items ++ rest)

  unfoldable pub list_pending_approvals : Result (ℕ × List PendingApproval)
  unfolding items_of_runs sorted_run_ids
  list_pending_approvals = do
    approvals ← items_of_runs (sorted_run_ids (store.list_all s))
    ok (length approvals, sort_by queue_leb approvals)
