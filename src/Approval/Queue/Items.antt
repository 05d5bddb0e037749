-- ===== src/Approval/Queue/Items.antt =====
-- approval_service.py: what a run adds to the list of the pending approvals.
use night_ledger.Prelude.{
  true, ◌≡◌, refl, none, some, List, [], ◌∷◌, arith, Option-cases, inl, inr, ◌⊎◌,
}
use night_ledger.Schema.{StoredEvent}
use night_ledger.Errors.{ok}
use night_ledger.RunStatus.{RunStatusProjection, PendingApprovalContext, project_run_status}
use night_ledger.RunStatus.Laws.{is_paused, paused-iff-pending}
use night_ledger.RunStatus.Pending.{pending-is_event}
use night_ledger.Approval.{find_event_by_id}
use night_ledger.Approval.Queue.{pending_item, items_of_run, item_of_projection}

-- If the projection of a run returns with a pending approval, an event of the run has its
-- identifier, and the run adds the item of that event and nothing else. If it returns with none,
-- the run adds nothing.
pub items_of_run-projected :
    (events : List StoredEvent) (p : RunStatusProjection)
    → project_run_status events ≡ ok p
    → ((c : PendingApprovalContext)
        → p.pending_approval ≡ some c
        → (e : StoredEvent) × (find_event_by_id events c.event_id ≡ some e)
          × (items_of_run events ≡ ok (pending_item c e ∷ [])))
      × (p.pending_approval ≡ none → items_of_run events ≡ ok [])
unfolding items_of_run find_event_by_id
items_of_run-projected events p h = (λ c e. named c e (Option-cases _), λ e. rw (h) (nothing e))
  where
    waiting : (c : PendingApprovalContext) → p.pending_approval ≡ some c → is_paused p.status ≡ true
    waiting c e = (paused-iff-pending events p h).1 (rw (e) refl)

    nothing : p.pending_approval ≡ none → item_of_projection events p ≡ ok []
    nothing e = ground arith

    item :
        (c : PendingApprovalContext) (e : StoredEvent)
        → p.pending_approval ≡ some c
        → find_event_by_id events c.event_id ≡ some e
        → is_paused p.status ≡ true
        → item_of_projection events p ≡ ok (pending_item c e ∷ [])
    item c e k l m = ground arith

    named :
        (c : PendingApprovalContext)
        → p.pending_approval ≡ some c
        → (find_event_by_id events c.event_id ≡ none)
          ⊎ ((e : StoredEvent) × (find_event_by_id events c.event_id ≡ some e))
        → (e : StoredEvent) × (find_event_by_id events c.event_id ≡ some e)
          × (items_of_run events ≡ ok (pending_item c e ∷ []))
    named c k (inl l) = absurd (ground (arith, pending-is_event events p c h k))
    named c k (inr (e, l)) = (e, l, rw (h) (item c e k l (waiting c k)))
