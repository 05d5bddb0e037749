-- ===== src/Approval/Resolve.antt =====
-- services/approval_service.py: the resolution of a pending approval.
pub mod Outcome
pub mod Recorded
pub mod Settled
use Prim.Native.String.{◌++◌}
use night_ledger.Prelude.{
  ℕ, ◌+◌, ◌-◌, ◌/◌, String, Bool, false, not, Option, none, some, List, [], ◌∷◌, filter, leb,
  str_eq, if◌then◌else◌, is_empty,
}
use night_ledger.Prelude.Time.{format_timestamp}
use night_ledger.Schema.{EventPayload, StoredEvent}
use night_ledger.Errors.{
  approval_not_found, ambiguous_event_id, no_pending_approval, duplicate_approval,
}
use night_ledger.Exec.{Exec, pure, throw, lift, gets, ◌>>=◌, ◌>>◌}
use night_ledger.EventStore.{EventStore}
use night_ledger.EventStore.Contract.{has_id}
use night_ledger.RunStatus.{
  RunWorkflowStatus, paused, RunStatusProjection, project_run_status, status_text,
}
use night_ledger.Ingest.{Validated, validate_event_payload}
use night_ledger.Approval.{Call, is_pending_signal, was_event_resolved, of_decision_id}
use night_ledger.Approval.Drafts.{ApprovalDecision, resolution_time, resolution_draft}
use night_ledger.Approval.Continuation.{orchestration_receipt_gap_ms, append_or_fail, orchestrate}

pub record ResolutionResult : Type 0 where
  pub event_id : String
  pub target_event_id : String
  pub run_id : String
  pub decision : ApprovalDecision
  pub resolved_at : String
  pub run_status : RunWorkflowStatus
  pub applied : Bool
  pub event_ids : List String
  pub approval_to_state_update_ms : ℕ
  pub within_target : Bool
  pub orchestration_receipt_gap_ms : Option ℕ
  pub state_transition : String

abbrev pub paused_on : RunStatusProjection → String → Bool
paused_on r event_id = elim r.status [
  | paused ↦ elim r.pending_approval [ none ↦ false | some c ↦ str_eq c.event_id event_id ]
  | _ ↦ false
]

module _ {S : Type 0} (store : EventStore S) (model_validate : EventPayload → Validated)
    (call : Call) where
  abbrev pub resolution_reply :
      StoredEvent
      → List StoredEvent
      → RunWorkflowStatus
      → ApprovalDecision
      → StoredEvent
      → List String
      → List StoredEvent
      → RunStatusProjection
      → ResolutionResult
  unfolding orchestration_receipt_gap_ms
  resolution_reply target run_events initial decision stored event_ids after r = record {
    event_id = stored.id;
    target_event_id = target.id;
    run_id = target.run_id;
    decision = decision;
    resolved_at = format_timestamp (resolution_time call.now run_events);
    run_status = r.status;
    applied = not (is_empty event_ids);
    event_ids = event_ids;
    approval_to_state_update_ms = call.elapsed_ms;
    within_target = leb call.elapsed_ms 1000;
    orchestration_receipt_gap_ms = orchestration_receipt_gap_ms after stored.id event_ids;
    state_transition = status_text initial ++ "->" ++ status_text r.status;
  }

  unfoldable pub append_resolution_event :
      StoredEvent
      → List StoredEvent
      → RunWorkflowStatus
      → ApprovalDecision
      → String
      → Option String
      → Exec S ResolutionResult
  unfolding orchestrate
  append_resolution_event target run_events initial decision approver reason = do
    payload ← lift (
        validate_event_payload model_validate
          (resolution_draft call target run_events decision approver reason))
    stored ← append_or_fail store model_validate call "storage backend append failed" payload
    event_ids ← orchestrate store model_validate call decision target stored
    after ← gets (λ s. store.list_by_run_id s target.run_id)
    r ← lift (project_run_status after)
    pure (resolution_reply target run_events initial decision stored event_ids after r)

  abbrev pub resolve_paused :
      String
      → ApprovalDecision
      → String
      → Option String
      → StoredEvent
      → List StoredEvent
      → RunStatusProjection
      → Exec S ResolutionResult
  unfolding append_resolution_event
  resolve_paused event_id decision approver reason target run_events r =
      if paused_on r event_id
      then append_resolution_event target run_events r.status decision approver reason
      else throw (no_pending_approval event_id)

  abbrev pub resolve_within :
      String
      → ApprovalDecision
      → String
      → Option String
      → StoredEvent
      → List StoredEvent
      → Exec S ResolutionResult
  resolve_within event_id decision approver reason target run_events =
      if not (is_pending_signal target)
      then throw (no_pending_approval event_id)
      else if was_event_resolved run_events event_id
      then throw (duplicate_approval event_id "event_id" "resolved")
      else (lift (project_run_status run_events)
          >>= resolve_paused event_id decision approver reason target run_events)

  abbrev pub resolve_target :
      String → ApprovalDecision → String → Option String → StoredEvent → Exec S ResolutionResult
  resolve_target event_id decision approver reason target s =
      resolve_within event_id decision approver reason target (store.list_by_run_id s target.run_id)
        s

  abbrev pub resolve_matches :
      String
      → ApprovalDecision
      → String
      → Option String
      → List StoredEvent
      → Exec S ResolutionResult
  resolve_matches event_id decision approver reason [] =
      throw (approval_not_found event_id "event_id")
  resolve_matches event_id decision approver reason (target ∷ []) =
      resolve_target event_id decision approver reason target
  resolve_matches event_id decision approver reason (_ ∷ _ ∷ _) =
      throw (ambiguous_event_id event_id)

  unfoldable pub resolve_pending_approval :
      String → ApprovalDecision → String → Option String → Exec S ResolutionResult
  resolve_pending_approval event_id decision approver reason = do
    all_events ← gets (λ s. store.list_all s)
    resolve_matches event_id decision approver reason (filter (has_id event_id) all_events)

  abbrev pub resolve_pending :
      String
      → ApprovalDecision
      → String
      → Option String
      → List StoredEvent
      → Exec S ResolutionResult
  resolve_pending decision_id decision approver reason [] = throw (no_pending_approval decision_id)
  resolve_pending decision_id decision approver reason (target ∷ []) =
      resolve_pending_approval target.id decision approver reason
  resolve_pending decision_id decision approver reason (_ ∷ _ ∷ _) =
      throw (ambiguous_event_id decision_id)

  abbrev pub resolve_decision :
      String
      → ApprovalDecision
      → String
      → Option String
      → List StoredEvent
      → Exec S ResolutionResult
  resolve_decision decision_id decision approver reason decision_events =
      if is_empty decision_events
      then throw (approval_not_found decision_id "decision_id")
      else resolve_pending decision_id decision approver reason
          (filter is_pending_signal decision_events)

  -- The reply of the source also carries the decision identifier that was given.
  unfoldable pub resolve_pending_approval_by_decision_id :
      String → ApprovalDecision → String → Option String → Exec S (ResolutionResult × String)
  unfolding resolve_pending_approval
  resolve_pending_approval_by_decision_id decision_id decision approver reason = do
    all_events ← gets (λ s. store.list_all s)
    result ←
        resolve_decision decision_id decision approver reason
          (filter (of_decision_id decision_id) all_events)
    pure (result, decision_id)
