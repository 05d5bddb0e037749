-- ===== src/Gate/Receipts.antt =====
-- controllers/events_controller.py: where a receipt stands in its run, and what the run's status
-- becomes.
use night_ledger.Prelude.{
  ◌+◌, Bool, true, false, ◌≡◌, refl, ap, sym, ◌∙◌, none, some, List, [], ◌∷◌, ◌++◌, leb, str_eq,
  All, All-imp, All-append, arith, if◌then◌else◌, inl, inr, get_last?, get_last?-snoc, Option-cases,
  eq_refl,
}
use night_ledger.Prelude.Time.{Datetime}
use night_ledger.Schema.{
  EventPayload, StoredEvent, EventType, decision, action, error, is_summary, is_approval_requested,
  is_approval_resolved,
}
use night_ledger.Errors as Errors
use night_ledger.Errors.{Result, ok, raise, conflict, is_ok}
use night_ledger.EventStore.{EventStore}
use night_ledger.EventStore.Contract.{IsEventStore, place}
use night_ledger.Ingest.{Validated, valid, validate_event_payload}
use night_ledger.RunStatus.{
  RunStatusProjection, Progress, projection, payload_is_resolution, payload_is_pending,
  status_is_rejected, after_approved, continued_after, step, advance, observe, project_run_status,
  to_terminal_status, terminal_step_status, is_pending_signal, is_resolution_signal,
}
use night_ledger.RunStatus.Laws.{is_terminal, IsCoherent, project_run_status-progress}
use night_ledger.RunStatus.Pending.{project_run_status-snoc}
use night_ledger.Approval.Resolve.Outcome.{place-last}
use night_ledger.Gate.{Call, Receipt, receipt_event, append_runtime_receipt}

-- No event of the run is later than the last of its list.
abbrev pub IsChronological : List StoredEvent → Type 0
IsChronological events =
    (last : StoredEvent)
    → get_last? events ≡ some last
    → All (λ (x : StoredEvent). leb x.timestamp last.timestamp ≡ true) events

-- The types of a receipt.
abbrev pub is_receipt_type : EventType → Bool
is_receipt_type decision = true
is_receipt_type action = true
is_receipt_type error = true
is_receipt_type _ = false

last_of :
    (e : StoredEvent) (es : List StoredEvent)
    → (last : StoredEvent) × (get_last? (e ∷ es) ≡ some last)
unfolding get_last?
last_of e [] = (e, refl)
last_of e (x ∷ xs) = last_of x xs

receipt-not_earlier :
    (call : Call) (receipt : Receipt) (existing : List StoredEvent)
    → IsChronological existing
    → All
        (λ (x : StoredEvent).
          leb x.timestamp (receipt_event call receipt existing).timestamp ≡ true)
        existing
unfolding receipt_event
receipt-not_earlier call receipt [] h = tt
receipt-not_earlier call receipt (e ∷ es) h =
    let (last, found) = last_of e es in
    All-imp (λ (x : StoredEvent). leb x.timestamp last.timestamp ≡ true) _
      (λ x k. rw found (bounded x.timestamp last.timestamp k)) (e ∷ es) (h last found)
  where
    bounded :
        (t last : Datetime)
        → leb t last ≡ true
        → leb t (if leb call.now last then last + 1000 else call.now) ≡ true
    bounded t last k = ground arith

snoc-IsChronological :
    (events : List StoredEvent) (e : StoredEvent)
    → All (λ (x : StoredEvent). leb x.timestamp e.timestamp ≡ true) events
    → IsChronological (events ++ e ∷ [])
snoc-IsChronological events e h last found =
    let same : e ≡ last = some-injective (sym (get_last?-snoc events e) ∙ found) in
    rw⁻¹ same (
      All-append (λ (x : StoredEvent). leb x.timestamp e.timestamp ≡ true) events (e ∷ []) h
        (ground arith, tt))
  where
    some-injective : {a b : StoredEvent} → some a ≡ some b → a ≡ b
    some-injective k = cc

-- The receipt that would be appended passes the validation.
abbrev pub IsAccepted :
    {S : Type 0} → EventStore S → (EventPayload → Validated) → Call → Receipt → S → Type 0
IsAccepted store model_validate call receipt s =
    let event = receipt_event call receipt (store.list_by_run_id s receipt.run_id) in
    model_validate event ≡ valid event

-- A receipt that passes the validation is appended.
pub receipt-appended :
    {S : Type 0} (store : EventStore S) (model_validate : EventPayload → Validated) (call : Call)
    (receipt : Receipt) (s : S)
    → IsAccepted store model_validate call receipt s
    → append_runtime_receipt store model_validate call receipt s
      ≡ store.append s (receipt_event call receipt (store.list_by_run_id s receipt.run_id))
unfolding append_runtime_receipt validate_event_payload
receipt-appended store model_validate call receipt s accepts = rw accepts refl

module _ {S : Type 0} (store : EventStore S) (Valid : S → Type 0)
    (contract : IsEventStore store Valid) (model_validate : EventPayload → Validated) (call : Call)
    (receipt : Receipt) where
  abbrev run_of : S → List StoredEvent
  run_of s = store.list_by_run_id s receipt.run_id

  abbrev recorded : S → S × Result StoredEvent
  recorded s = append_runtime_receipt store model_validate call receipt s

  -- A receipt that passes the validation and is stored, in a run of which no event is later than
  -- the last, carries what was to be recorded and stands at the end of the run, of which again no
  -- event is later than the last.
  pub receipt-last :
      (s : S) (e : StoredEvent)
      → Valid s
      → IsAccepted store model_validate call receipt s
      → IsChronological (store.list_by_run_id s receipt.run_id)
      → (append_runtime_receipt store model_validate call receipt s).1 ≡ ok e
      → (store.list_by_run_id
            (append_runtime_receipt store model_validate call receipt s).0
            receipt.run_id
          ≡ store.list_by_run_id s receipt.run_id ++ e ∷ [])
        × (e.payload ≡ receipt_event call receipt (store.list_by_run_id s receipt.run_id))
        × IsChronological (
            store.list_by_run_id
              (append_runtime_receipt store model_validate call receipt s).0
              receipt.run_id)
  receipt-last s e held accepts ordered h =
      let appended = receipt-appended store model_validate call receipt s accepts in
      let event = receipt_event call receipt (run_of s) in
      let (same, listed) =
        contract.stored s event e held
          (sym (ap (λ (r : S × Result StoredEvent). r.1) appended) ∙ h) in
      let earlier =
        All-imp (λ (x : StoredEvent). leb x.timestamp event.timestamp ≡ true)
          (λ (x : StoredEvent). leb x.timestamp e.timestamp ≡ true) (λ x k. rw (same.timestamp) k)
          (run_of s) (receipt-not_earlier call receipt (run_of s) ordered) in
      let timeline : run_of (recorded s).0 ≡ run_of s ++ e ∷ [] =
        ap (λ (r : S × Result StoredEvent). run_of r.0) appended
        ∙ listed.timeline receipt.run_id
        ∙ ap (λ b. if b then place e (run_of s) else run_of s)
            (ap (λ r. str_eq r receipt.run_id) (same.run_id ∙ run_id_of) ∙ eq_refl receipt.run_id)
        ∙ place-last e (run_of s) earlier in
      (timeline, same.payload, rw timeline (snoc-IsChronological (run_of s) e earlier))
    where
      run_id_of : (receipt_event call receipt (run_of s)).run_id ≡ receipt.run_id
      run_id_of = unfold receipt_event in refl

-- What an event that neither asks, resolves nor ends makes of the projection of its run.
abbrev pub observed : RunStatusProjection → Result RunStatusProjection
observed r =
    if is_terminal r.status
    then continued_after r.status
    else if status_is_rejected r.status
    then conflict "workflow_status" "event stream continued after rejection without terminal stop"
        "REJECTED_STATE_CONFLICT"
    else ok (record r { status = after_approved r.status })

plain :
    (t : EventType)
    → is_receipt_type t ≡ true
    → (is_summary t ≡ false) × (is_approval_requested t ≡ false) × (is_approval_resolved t ≡ false)
plain t h = (ground arith, ground arith, ground arith)

step-observes :
    (p : Progress) (e : StoredEvent)
    → IsCoherent p
    → payload_is_resolution e.payload ≡ false
    → payload_is_pending e.payload ≡ false
    → to_terminal_status e.payload ≡ none
    → Errors.◌>>=◌ (step p e) (λ q. ok (projection q)) ≡ observed (projection p)
unfolding step advance observe
step-observes p e coherent unresolved unasked goes_on = elim (Option-cases p.terminal_status) [
  | inl going ↦ ground (arith, coherent.pending, coherent.terminal)
  | inr (t, ended) ↦ ground (arith, coherent.pending, coherent.terminal, coherent.same t ended)
]

-- A receipt at the end of a run keeps what the run waits for, and its status unless it is
-- approved, which becomes running; but in a run that has ended, or that was rejected without a
-- stop, it makes the projection fail, since the receipts do not pass the business rules.
pub receipt-projected :
    (events : List StoredEvent) (e : StoredEvent) (call : Call) (receipt : Receipt)
    (r : RunStatusProjection)
    → e.payload ≡ receipt_event call receipt events
    → is_receipt_type receipt.event_type ≡ true
    → terminal_step_status receipt.step ≡ none
    → project_run_status events ≡ ok r
    → project_run_status (events ++ e ∷ []) ≡ observed r
unfolding to_terminal_status is_pending_signal is_resolution_signal receipt_event
receipt-projected events e call receipt r payload typed goes_on h =
    let (p, run, coherent, view) = project_run_status-progress events r h in
    let (unended, unasked, unresolved) = plain receipt.event_type typed in
    project_run_status-snoc events e p run
    ∙ step-observes p e coherent (ap (λ x. payload_is_resolution x) payload ∙ rw unresolved refl)
        (ap (λ x. payload_is_pending x) payload ∙ rw unasked refl)
        (ap to_terminal_status payload ∙ rw (unended, goes_on) refl)
    ∙ ap observed view
