-- ===== src/Approval/Register/Unique.antt =====
-- approval_service.py: a decision identifier is registered once, and its state can be read.
use night_ledger.Prelude.{
  Bool, true, false, not, ◌≡◌, refl, sym, ap, subst, ◌∙◌, List, [], ◌∷◌, filter, arith, any,
  get_last?, eq_refl, some, none, find?,
}
use night_ledger.Prelude.Sort.{insert_after}
use night_ledger.Schema.{StoredEvent, EventPayload}
use night_ledger.Errors.{Result, ok, raise, is_ok, duplicate_approval}
use night_ledger.EventStore.{EventStore}
use night_ledger.EventStore.Contract.{chrono_leb, has_id, IsEventStore, IsRecordOf}
use night_ledger.Ingest.{Validated, valid, validate_event_payload}
use night_ledger.Approval.{
  Call, is_pending_signal, is_resolution_signal, is_lifecycle, of_decision_id,
  get_approval_decision_state, state_of_events, first_request, last_resolution, decision_state,
}
use night_ledger.Approval.Register.{
  ApprovalRequest, Registration, request_draft, append_request, register_pending_approval_request,
  latest_reason,
}

filter-insert_after :
    {A : Type 0} (le : A → A → Bool) (p q : A → Bool) (x : A) (xs : List A)
    → p x ≡ true
    → q x ≡ true
    → filter q (filter p xs) ≡ []
    → filter q (filter p (insert_after le x xs)) ≡ x ∷ []
unfolding filter insert_after
filter-insert_after le p q x [] hp hq h = rw (hp) (rw (hq) refl)
filter-insert_after le p q x (y ∷ ys) hp hq h =
    ground (arith, filter-insert_after le p q x ys hp hq)

module _ {S : Type 0} (store : EventStore S) (model_validate : EventPayload → Validated) where
  -- A request whose decision identifier has an open lifecycle.
  register-again :
      (call : Call) (asked : ApprovalRequest) (s : S) (e : StoredEvent)
      → filter is_lifecycle (filter (of_decision_id asked.decision_id) (store.list_all s)) ≡ e ∷ []
      → is_pending_signal e ≡ true
      → register_pending_approval_request store model_validate call asked s
        ≡ (s, raise (duplicate_approval asked.decision_id "decision_id" "pending"))
  unfolding register_pending_approval_request latest_reason get_last?
  register-again call asked s e one pending = rw (one) (rw (pending) refl)

  module _ (Valid : S → Type 0) (laws : IsEventStore store Valid) (call : Call)
      (asked : ApprovalRequest) (s : S) (valid_s : Valid s) where
    abbrev pub draft : EventPayload
    draft = request_draft call asked (store.list_by_run_id s asked.run_id)

    abbrev after : S
    after = (store.append s draft).0

    -- What the first of two requests for a decision identifier leaves to the second.
    pub record IsRegistered (result : S × Result Registration) : Type 0 where
      pub reply : Registration
      pub returned : result.1 ≡ ok reply
      pub event : StoredEvent
      pub recorded : IsRecordOf draft event
      pub named : reply.event_id ≡ event.id
      pub closed :
          (other : Call) (again : ApprovalRequest)
          → again.decision_id ≡ asked.decision_id
          → register_pending_approval_request store model_validate other again result.0
            ≡ (result.0, raise (duplicate_approval asked.decision_id "decision_id" "pending"))
      pub state :
          get_approval_decision_state store result.0 asked.decision_id
          ≡ ok (decision_state asked.decision_id event (some event) none)

    module _ (accepted : model_validate draft ≡ valid draft)
        (fresh : any (has_id draft.id) (store.list_by_run_id s asked.run_id) ≡ false)
        (new : filter is_lifecycle (filter (of_decision_id asked.decision_id) (store.list_all s))
          ≡ []) where
      registered :
          (e : StoredEvent)
          → (store.append s draft).1 ≡ ok e
          → register_pending_approval_request store model_validate call asked s ≡ (
            after,
            ok (record { decision_id = asked.decision_id; event_id = e.id; run_id = asked.run_id }),
          )
      unfolding register_pending_approval_request validate_event_payload append_request
          request_draft
      registered e h = rw (new) (rw (accepted, h) refl)

      lifecycle :
          (e : StoredEvent)
          → (store.append s draft).1 ≡ ok e
          → filter is_lifecycle (filter (of_decision_id asked.decision_id) (store.list_all after))
            ≡ e ∷ []
      unfolding request_draft is_pending_signal
      lifecycle e h =
          let (recorded, appended) = laws.stored s draft e valid_s h in
          ap (λ l. filter is_lifecycle (filter (of_decision_id asked.decision_id) l))
            appended.everything
          ∙ filter-insert_after chrono_leb (of_decision_id asked.decision_id) is_lifecycle e
              (store.list_all s) (rw (recorded.payload) (eq_refl asked.decision_id))
              (rw (recorded.payload) refl) new

      pending_state :
          (e : StoredEvent)
          → (store.append s draft).1 ≡ ok e
          → get_approval_decision_state store after asked.decision_id
            ≡ ok (decision_state asked.decision_id e (some e) none)
      unfolding get_approval_decision_state state_of_events first_request last_resolution
          request_draft find? is_pending_signal is_resolution_signal get_last? filter
      pending_state e h =
          let (recorded, appended) = laws.stored s draft e valid_s h in
          rw (lifecycle e h) (rw (recorded.payload) refl)

      closes :
          (e : StoredEvent)
          → (store.append s draft).1 ≡ ok e
          → (other : Call) (again : ApprovalRequest) → again.decision_id ≡ asked.decision_id
          → register_pending_approval_request store model_validate other again after
            ≡ (after, raise (duplicate_approval asked.decision_id "decision_id" "pending"))
      unfolding request_draft is_pending_signal
      closes e h other again same =
          let recorded = (laws.stored s draft e valid_s h).0 in
          register-again other again after e
            (ap (λ d. filter is_lifecycle (filter (of_decision_id d) (store.list_all after))) same
              ∙ lifecycle e h)
            (rw (recorded.payload) refl)
          ∙ ap (λ d. (after, raise (duplicate_approval d "decision_id" "pending"))) same

      -- In a store that keeps its contract, a request whose draft passes validation unchanged, with
      -- a new event identifier and a decision identifier that no request or resolution has, is
      -- registered. As long as nothing else is stored, the state of the decision is that of the
      -- request, with no resolution, and every later request with that decision identifier is
      -- refused as pending.
      pub register_pending_approval_request-once :
          IsRegistered (register_pending_approval_request store model_validate call asked s)
      unfolding request_draft
      register_pending_approval_request-once =
          go (store.append s draft).1 refl (laws.unique s draft valid_s ∙ ap not fresh)
        where
          go :
              (x : Result StoredEvent)
              → (store.append s draft).1 ≡ x
              → is_ok x ≡ true
              → IsRegistered (register_pending_approval_request store model_validate call asked s)
          go (raise x) h k = cc
          go (ok e) h k = subst IsRegistered (sym (registered e h)) record {
            reply = _;
            returned = refl;
            event = e;
            recorded = (laws.stored s draft e valid_s h).0;
            named = refl;
            closed = closes e h;
            state = pending_state e h;
          }
