-- ===== src/Ingest/Projectable.antt =====
-- The ingestion handler of controllers/events_controller.py against run_status_service.py: what an
-- answered ingestion does to the projection of its run.
use night_ledger.Prelude.{
  true, false, ◌≡◌, ap, sym, ◌∙◌, is_none, leb, All, All-imp, eq_refl, str_eq, if◌then◌else◌,
}
use night_ledger.Schema.{EventPayload, StoredEvent, is_approval_resolved, is_decided}
use night_ledger.Errors.{ok, is_ok}
use night_ledger.EventStore.{EventStore}
use night_ledger.EventStore.Contract.{IsEventStore, place}
use night_ledger.RunStatus.{
  RunStatusProjection, project_run_status, payload_is_pending, payload_is_resolution,
  status_is_rejected,
}
use night_ledger.BusinessRules.Projectable.{accepted-keeps_projectable}
use night_ledger.Approval.Resolve.Outcome.{place-last}
use night_ledger.Ingest.{Validated, valid, IngestReply, ingest_event}
use night_ledger.Ingest.Outcome.{ingest_event-stores}

-- In a store that keeps its contract, an answered ingestion of an event that is not earlier than
-- any event of its run, which is projectable, leaves the run projectable, if the run was not
-- rejected, the event asks for no second approval, carries a resolution only as
-- `approval_resolved`, and resolves to approved or rejected. (The rules do not check these
-- conditions.)
pub ingest_event-keeps_projectable :
    {S Raw : Type 0} (store : EventStore S) (model_validate : Raw → Validated) (payload : Raw)
    (s : S) (Valid : S → Type 0) (laws : IsEventStore store Valid) (valid_s : Valid s)
    (event : EventPayload) (reply : IngestReply) (r : RunStatusProjection)
    → model_validate payload ≡ valid event
    → (ingest_event store model_validate payload s).1 ≡ ok reply
    → project_run_status (store.list_by_run_id s event.run_id) ≡ ok r
    → All (λ x. leb x.timestamp event.timestamp ≡ true) (store.list_by_run_id s event.run_id)
    → status_is_rejected r.status ≡ false
    → (payload_is_pending event ≡ true → is_none r.pending_approval ≡ true)
    → payload_is_resolution event ≡ is_approval_resolved event.type
    → (is_approval_resolved event.type ≡ true → is_decided event.approval.status ≡ true)
    → is_ok (
        project_run_status
          (store.list_by_run_id (ingest_event store model_validate payload s).0 event.run_id))
      ≡ true
ingest_event-keeps_projectable store model_validate payload s Valid laws valid_s event reply r
      accepts answered projects last kept single typed decided =
    let i =
      (ingest_event-stores store model_validate payload s Valid laws valid_s).0 reply answered in
    let same : i.event ≡ event = valid-injective (sym i.accepted ∙ accepts) in
    let existing = store.list_by_run_id s event.run_id in
    let time : i.stored.timestamp ≡ event.timestamp =
      i.recorded.timestamp ∙ ap (λ (e : EventPayload). e.timestamp) same in
    let run : i.stored.run_id ≡ event.run_id =
      i.recorded.run_id ∙ ap (λ (e : EventPayload). e.run_id) same in
    let earlier =
      All-imp (λ (x : StoredEvent). leb x.timestamp event.timestamp ≡ true)
        (λ (x : StoredEvent). leb x.timestamp i.stored.timestamp ≡ true) (λ x k. rw time k) existing
        last in
    let timeline =
      i.appended.timeline event.run_id
      ∙ ap (λ b. if b then place i.stored existing else existing)
          (ap (λ a. str_eq a event.run_id) run ∙ eq_refl event.run_id)
      ∙ place-last i.stored existing earlier in
    rw timeline (
      accepted-keeps_projectable event existing i.stored r (i.recorded.payload ∙ same) projects
        (rw same at i.admitted) kept single typed decided)
  where
    valid-injective : {a b : EventPayload} → valid a ≡ valid b → a ≡ b
    valid-injective h = cc
