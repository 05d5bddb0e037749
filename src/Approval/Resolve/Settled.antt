-- ===== src/Approval/Resolve/Settled.antt =====
-- approval_service.py: a resolution of the pending approval goes through and settles the run.
use night_ledger.Prelude.{
  String, true, false, not, ◌&&◌, ◌≡◌, refl, sym, ap, subst, ◌∙◌, Option, none, some, List, [], ◌∷◌,
  ◌++◌, leb, str_eq, if◌then◌else◌, any, All, eq_iff, eq_refl,
}
use night_ledger.Prelude.Text.{is_blank}
use night_ledger.Schema.{StoredEvent, EventPayload}
use night_ledger.Errors.{Result, ok, raise, is_ok}
use night_ledger.EventStore.{EventStore}
use night_ledger.EventStore.Contract.{place, has_id, IsEventStore, IsRecordOf}
use night_ledger.RunStatus.{paused, project_run_status}
use night_ledger.Approval.{Call, was_event_resolved, resolves}
use night_ledger.Approval.Drafts.{
  ApprovalDecision, resolution_draft, demo_run_id, demo_approval_event_id,
}
use night_ledger.Ingest.{Validated, valid, validate_event_payload}
use night_ledger.Approval.Resolve.{
  ResolutionResult, resolve_pending_approval, resolve_paused, append_resolution_event,
  resolution_reply,
}
use night_ledger.Approval.Resolve.Outcome.{IsResolvable, resolve_within-open, place-last}
use night_ledger.Approval.Resolve.Recorded.{
  outcome, resolution_time-later, resolved_from-snoc, stored-resolves, run_settled, filter-head,
  no_orchestration,
}

module _ {S : Type 0} (store : EventStore S) (Valid : S → Type 0) (laws : IsEventStore store Valid)
    (model_validate : EventPayload → Validated) (call : Call) (event_id : String)
    (decision : ApprovalDecision) (approver : String) (reason : Option String) (s : S)
    (target : StoredEvent) where
  abbrev pub before : List StoredEvent
  before = store.list_by_run_id s target.run_id

  abbrev pub intended : EventPayload
  intended = resolution_draft call target before decision approver reason

  -- The store and the reply after a resolution.
  pub record IsSettled (after : S × Result ResolutionResult) : Type 0 where
    pub reply : ResolutionResult
    pub returned : after.1 ≡ ok reply
    pub run_status : reply.run_status ≡ outcome decision
    pub resolution : StoredEvent
    pub recorded : IsRecordOf intended resolution
    pub timeline : store.list_by_run_id after.0 target.run_id ≡ before ++ resolution ∷ []
    pub projected :
        project_run_status (store.list_by_run_id after.0 target.run_id)
        ≡ ok (record { status = outcome decision; pending_approval = none })
    pub closed : was_event_resolved (store.list_by_run_id after.0 target.run_id) event_id ≡ true

  module _ (valid_s : Valid s) (ready : IsResolvable store s event_id target)
      (accepted : model_validate intended ≡ valid intended) (named : is_blank approver ≡ false)
      (fresh : any (has_id intended.id) before ≡ false)
      (ordinary : (str_eq target.run_id demo_run_id && str_eq target.id demo_approval_event_id)
        ≡ false) where
    abbrev tried : Result StoredEvent
    tried = (store.append s intended).1

    module _ (stored : StoredEvent) (h : tried ≡ ok stored) where
      abbrev after : S
      after = (store.append s intended).0

      recorded : IsRecordOf intended stored
      recorded = (laws.stored s intended stored valid_s h).0

      timeline : store.list_by_run_id after target.run_id ≡ before ++ stored ∷ []
      unfolding resolution_draft
      timeline =
          (laws.stored s intended stored valid_s h).1.timeline target.run_id
          ∙ ap (λ b. if b then place stored before else before)
              (ap (λ r. str_eq r target.run_id) recorded.run_id ∙ eq_refl target.run_id)
          ∙ place-last stored before (
              subst (λ t. All (λ (x : StoredEvent). leb x.timestamp t ≡ true) before)
                (sym recorded.timestamp) (resolution_time-later call.now before))

      projected :
          project_run_status (store.list_by_run_id after target.run_id)
          ≡ ok (record { status = outcome decision; pending_approval = none })
      projected =
          ap project_run_status timeline
          ∙ run_settled call target before approver reason stored decision recorded named
              ready.context ready.current

      closed : was_event_resolved (store.list_by_run_id after target.run_id) event_id ≡ true
      unfolding was_event_resolved
      closed =
          ap (λ l. was_event_resolved l event_id) timeline
          ∙ resolved_from-snoc event_id none before stored (
              subst (λ i. (c : Option String) → resolves i c stored ≡ true)
                ((eq_iff target.id event_id).0
                  (filter-head (has_id event_id) _ target [] ready.unique))
                (stored-resolves call target before approver reason stored decision recorded))

      append_settles :
          append_resolution_event store model_validate call target before paused decision approver
            reason s
          ≡ (
            after,
            ok (
                resolution_reply store model_validate call target before paused decision stored []
                  (store.list_by_run_id after target.run_id)
                  (record { status = outcome decision; pending_approval = none })),
          )
      unfolding append_resolution_event validate_event_payload
      append_settles =
          rw
            (
              accepted,
              h,
              no_orchestration store model_validate call target ordinary decision stored after,
              projected,
            )
            refl

    goes_through :
        resolve_pending_approval store model_validate call event_id decision approver reason s
        ≡ append_resolution_event store model_validate call target before paused decision approver
            reason s
    unfolding resolve_pending_approval resolve_paused
    goes_through = rw (ready.unique) (
        resolve_within-open store model_validate call event_id decision approver reason s target
          (record { status = paused; pending_approval = some ready.context }) ready.pending
          ready.unresolved ready.current
        ∙ rw (ready.asked, eq_refl event_id) refl)

    -- In a store that keeps its contract, the resolution of the event on which its run is paused
    -- returns, if no other stored event of any run has the identifier of the event, the event asks
    -- for approval and no event of its run counts as its resolution, the draft of the resolution
    -- passes validation unchanged, under an identifier that is new in the run, the approver has a
    -- name, and the event is not the one of the demonstration. It appends the resolution at the end
    -- of the run, which is approved or stopped after it, with nothing pending and the event
    -- resolved.
    pub resolve_pending_approval-settles :
        IsSettled
          (resolve_pending_approval store model_validate call event_id decision approver reason s)
    unfolding resolution_reply resolution_draft
    resolve_pending_approval-settles = go tried refl (laws.unique s intended valid_s ∙ ap not fresh)
      where
        go :
            (x : Result StoredEvent)
            → tried ≡ x
            → is_ok x ≡ true
            → IsSettled (
                resolve_pending_approval store model_validate call event_id decision approver reason
                  s)
        go (raise x) h k = cc
        go (ok stored) h k = subst IsSettled (sym (goes_through ∙ append_settles stored h)) record {
          reply = _;
          returned = refl;
          run_status = refl;
          resolution = stored;
          recorded = recorded stored h;
          timeline = timeline stored h;
          projected = projected stored h;
          closed = closed stored h;
        }
