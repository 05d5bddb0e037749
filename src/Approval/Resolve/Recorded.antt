-- ===== src/Approval/Resolve/Recorded.antt =====
-- approval_service.py: what the resolution that was recorded means for its run.
use night_ledger.Prelude.{
  ℕ, String, Bool, true, false, ◌&&◌, ◌||◌, ◌≡◌, refl, ◌∙◌, Option, none, some, List, [], ◌∷◌, ◌++◌,
  filter, arith, leb, str_eq, if◌then◌else◌, All, All-imp, Bool-cases, inl, inr,
}
use night_ledger.Prelude.Text.{is_blank}
use night_ledger.Schema.{is_decided, is_pending, StoredEvent, EventPayload}
use night_ledger.Errors.{ok}
use night_ledger.EventStore.{EventStore}
use night_ledger.EventStore.Contract.{IsRecordOf}
use night_ledger.RunStatus.{
  RunWorkflowStatus, paused, approved, stopped, PendingApprovalContext, project_run_status,
  to_terminal_status, terminal_step_status, is_resolution_signal,
}
use night_ledger.RunStatus.Machine.{IsSigned}
use night_ledger.RunStatus.Pending.{project_run_status-resolved, project_run_status-end}
use night_ledger.Approval.{
  Call, is_pending_signal, resolved_from, resolves, resolution_prefix, next_current,
}
use night_ledger.Approval.Drafts.{
  ApprovalDecision, approve, reject, latest_timestamp, resolution_time, resolution_draft,
  decision_step, decided_status, build_resolution_event_id, demo_run_id, demo_approval_event_id,
}
use night_ledger.Ingest.{Validated}
use night_ledger.Approval.Continuation.{orchestrate}
use night_ledger.Approval.Resolve.Outcome.{latest_timestamp-bound}
use text.Mathlib.TextPositions.{starts_with-append}

-- An approved run goes on, a rejected one has ended.
abbrev pub outcome : ApprovalDecision → RunWorkflowStatus
outcome approve = approved
outcome reject = stopped

pub resolution_time-later :
    (now : ℕ) (events : List StoredEvent)
    → All (λ e. leb e.timestamp (resolution_time now events) ≡ true) events
unfolding resolution_time
resolution_time-later now events =
    All-imp (λ (e : StoredEvent). leb e.timestamp (latest_timestamp events) ≡ true) _
      (λ e h. ground arith) events (latest_timestamp-bound events)

resolved_from-cons :
    (target : String) (current : Option String) (x : StoredEvent) (xs : List StoredEvent)
    → resolved_from target current (x ∷ xs) ≡ (
        if resolves target current x
        then true
        else resolved_from target (next_current x current) xs)
unfolding resolved_from
resolved_from-cons target current x xs = refl

-- An event that resolves the target whatever is pending, at the end of a run.
pub resolved_from-snoc :
    (target : String) (current : Option String) (events : List StoredEvent) (e : StoredEvent)
    → ((c : Option String) → resolves target c e ≡ true)
    → resolved_from target current (events ++ e ∷ []) ≡ true
resolved_from-snoc target current [] e h =
    rw (resolved_from-cons target current e [], h current) refl
resolved_from-snoc target current (x ∷ xs) e h =
    let rest = resolved_from-snoc target (next_current x current) xs e h in
    rw (resolved_from-cons target current x (xs ++ e ∷ []), rest) (both (resolves target current x))
  where
    both : (b : Bool) → (if b then true else true) ≡ true
    both true = refl
    both false = refl

decided-is_decided : (d : ApprovalDecision) → is_decided (decided_status d) ≡ true
decided-is_decided approve = refl
decided-is_decided reject = refl

decided-not_pending : (d : ApprovalDecision) → is_pending (decided_status d) ≡ false
decided-not_pending approve = refl
decided-not_pending reject = refl

either_true : (b q : Bool) → b ≡ true → (b || q) ≡ true
either_true b q h = ground arith

module _ (call : Call) (target : StoredEvent) (run_events : List StoredEvent) (approver : String)
    (reason : Option String) (stored : StoredEvent) where
  abbrev draft : ApprovalDecision → EventPayload
  draft decision = resolution_draft call target run_events decision approver reason

  pub stored-resolves :
      (decision : ApprovalDecision)
      → IsRecordOf (draft decision) stored
      → (c : Option String) → resolves target.id c stored ≡ true
  unfolding resolves is_pending_signal is_resolution_signal resolution_draft
      build_resolution_event_id
  stored-resolves decision same c =
      rw (same.payload, same.id, decided-not_pending decision)
        (either_true _ _ (starts_with-append (resolution_prefix target.id) _))

  stored-IsSigned :
      (decision : ApprovalDecision)
      → IsRecordOf (draft decision) stored
      → is_blank approver ≡ false
      → IsSigned stored.payload
  unfolding resolution_draft
  stored-IsSigned decision same named =
      rw (same.payload)
        record { decided = decided-is_decided decision; approver = named; time = refl }

  pub run_settled :
      (decision : ApprovalDecision)
      → IsRecordOf (draft decision) stored
      → is_blank approver ≡ false
      → (c : PendingApprovalContext)
      → project_run_status run_events ≡ ok (record { status = paused; pending_approval = some c })
      → project_run_status (run_events ++ stored ∷ [])
        ≡ ok (record { status = outcome decision; pending_approval = none })
  unfolding resolution_draft to_terminal_status terminal_step_status is_resolution_signal
      decision_step
  run_settled approve same named c current =
      project_run_status-resolved run_events stored _ current c refl (rw (same.payload) refl)
        (rw (same.payload) refl) (stored-IsSigned approve same named)
      ∙ rw (same.payload) refl
  run_settled reject same named c current =
      project_run_status-end run_events stored _ current stopped refl (rw (same.payload) refl)

pub filter-head :
    {A : Type 0} (p : A → Bool) (xs : List A) (y : A) (ys : List A)
    → filter p xs ≡ y ∷ ys
    → p y ≡ true
unfolding filter
filter-head p [] y ys h = cc
filter-head p (x ∷ xs) y ys h = elim (Bool-cases (p x)) [
  | inl e ↦ ground arith
  | inr e ↦ filter-head p xs y ys (ground arith)
]

module _ {S : Type 0} (store : EventStore S) (model_validate : EventPayload → Validated)
    (call : Call) (target : StoredEvent)
    (ordinary : (str_eq target.run_id demo_run_id && str_eq target.id demo_approval_event_id)
      ≡ false) where
  pub no_orchestration :
      (decision : ApprovalDecision) (stored : StoredEvent) (s : S)
      → orchestrate store model_validate call decision target stored s ≡ (s, ok [])
  unfolding orchestrate
  no_orchestration approve stored s = rw ordinary refl
  no_orchestration reject stored s = refl
