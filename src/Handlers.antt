-- ===== src/Handlers.antt =====
-- controllers/events_controller.py: the handlers that read runs, and those of the approvals, which
-- let the exceptions of their list pass and turn any other into a storage error. The logs are left
-- out.
pub mod Consistent
pub mod Seed
pub mod Seeded
use night_ledger.Prelude.{ℕ, String, Option, List, [], ◌∷◌, length}
use night_ledger.Schema.{EventPayload, StoredEvent, RiskLevel}
use night_ledger.Errors.{
  Result, ok, raise, Error, schema_validation, storage_write, storage_read, run_not_found,
  inconsistent_run_state, approval_not_found, ambiguous_event_id, no_pending_approval,
  duplicate_approval, ◌>>=◌, ◌>>◌,
}
use night_ledger.Exec.{Exec}
use night_ledger.EventStore.{EventStore, Digest}
use night_ledger.Ingest.{Validated, reraise}
use night_ledger.RunStatus.{
  RunWorkflowStatus, PendingApprovalContext, RunStatusProjection, project_run_status,
}
use night_ledger.Journal.{RunJournalProjection, project_run_journal}
use night_ledger.Approval.{Call, DecisionState, get_approval_decision_state}
use night_ledger.Approval.Drafts.{ApprovalDecision}
use night_ledger.Approval.Queue.{PendingApproval, list_pending_approvals}
use night_ledger.Approval.Register.{
  ApprovalRequest, Registration, register_pending_approval_request,
}
use night_ledger.Approval.Resolve.{
  ResolutionResult, resolve_pending_approval, resolve_pending_approval_by_decision_id,
}
use night_ledger.Audit.{AuditExport, export_decision_audit}

pub record RunEvents : Type 0 where
  pub run_id : String
  pub event_count : ℕ
  pub events : List StoredEvent

pub record RunStatusReply : Type 0 where
  pub run_id : String
  pub status : RunWorkflowStatus
  pub pending_approval : Option PendingApprovalContext

-- `if not events`
abbrev pub some_events : String → List StoredEvent → Result (List StoredEvent)
some_events run_id [] = raise (run_not_found run_id)
some_events run_id (event ∷ events) = ok (event ∷ events)

abbrev pub read_failed : Error
read_failed = storage_read "storage backend read failed"

-- The exceptions that pass `get_pending_approvals`.
abbrev pub pending_error : Error → Error
pending_error (storage_read message) = storage_read message
pending_error (inconsistent_run_state state) = inconsistent_run_state state
pending_error _ = read_failed

-- Those that pass `register_approval_request`.
abbrev pub register_error : Error → Error
register_error (storage_read message) = storage_read message
register_error (storage_write message) = storage_write message
register_error (duplicate_approval event_id detail_path reason) =
    duplicate_approval event_id detail_path reason
register_error _ = storage_write "storage backend append failed"

-- Those that pass `resolve_approval` and `resolve_approval_by_decision_id`.
abbrev pub resolve_error : Error → Error
resolve_error (storage_read message) = storage_read message
resolve_error (storage_write message) = storage_write message
resolve_error (approval_not_found event_id detail_path) = approval_not_found event_id detail_path
resolve_error (ambiguous_event_id event_id) = ambiguous_event_id event_id
resolve_error (no_pending_approval event_id) = no_pending_approval event_id
resolve_error (duplicate_approval event_id detail_path reason) =
    duplicate_approval event_id detail_path reason
resolve_error (inconsistent_run_state state) = inconsistent_run_state state
resolve_error _ = read_failed

-- Those that pass `get_approval_by_decision_id`.
abbrev pub decision_error : Error → Error
decision_error (storage_read message) = storage_read message
decision_error (approval_not_found event_id detail_path) = approval_not_found event_id detail_path
decision_error _ = read_failed

-- Those that pass `get_decision_audit_export`.
abbrev pub audit_error : Error → Error
audit_error (storage_read message) = storage_read message
audit_error (approval_not_found event_id detail_path) = approval_not_found event_id detail_path
audit_error (inconsistent_run_state state) = inconsistent_run_state state
audit_error _ = read_failed

abbrev pub filtered : {S A : Type 0} → (Error → Error) → Exec S A → Exec S A
filtered f m s = let r = m s in (r.0, reraise f r.1)

module _ {S : Type 0} (store : EventStore S) where
  unfoldable pub get_run_events : String → S → Result RunEvents
  get_run_events run_id s =
      let events = store.list_by_run_id s run_id in
      ok (record { run_id = run_id; event_count = length events; events = events })

  unfoldable pub get_run_status : String → S → Result RunStatusReply
  get_run_status run_id s = some_events run_id (store.list_by_run_id s run_id) >>= λ events.
      project_run_status events >>= λ projection. ok (record {
        run_id = run_id;
        status = projection.status;
        pending_approval = projection.pending_approval;
      })

  -- The projection of the status is only a guard.
  unfoldable pub get_run_journal : String → S → Result RunJournalProjection
  get_run_journal run_id s = some_events run_id (store.list_by_run_id s run_id) >>= λ events.
      project_run_journal run_id events >>= λ journal.
      project_run_status events >>= λ status. ok journal

  unfoldable pub get_pending_approvals : S → Result (ℕ × List PendingApproval)
  get_pending_approvals s = reraise pending_error (list_pending_approvals store s)

  unfoldable pub get_approval_by_decision_id : String → S → Result DecisionState
  get_approval_by_decision_id decision_id s =
      reraise decision_error (get_approval_decision_state store s decision_id)

  unfoldable pub get_decision_audit_export : Digest → String → S → Result AuditExport
  get_decision_audit_export digest decision_id s =
      reraise audit_error (export_decision_audit store digest s decision_id)

  unfoldable pub register_approval_request :
      (EventPayload → Validated) → Call → ApprovalRequest → Exec S Registration
  register_approval_request model_validate call payload =
      filtered register_error (register_pending_approval_request store model_validate call payload)

  unfoldable pub resolve_approval :
      (EventPayload → Validated)
      → Call
      → (event_id : String) (decision : ApprovalDecision) (approver_id : String)
        (reason : Option String)
      → Exec S ResolutionResult
  resolve_approval model_validate call event_id decision approver_id reason =
      filtered resolve_error
        (resolve_pending_approval store model_validate call event_id decision approver_id reason)

  unfoldable pub resolve_approval_by_decision_id :
      (EventPayload → Validated)
      → Call
      → (decision_id : String) (decision : ApprovalDecision) (approver_id : String)
        (reason : Option String)
      → Exec S (ResolutionResult × String)
  resolve_approval_by_decision_id model_validate call decision_id decision approver_id reason =
      filtered resolve_error (
        resolve_pending_approval_by_decision_id store model_validate call decision_id decision
          approver_id reason)
