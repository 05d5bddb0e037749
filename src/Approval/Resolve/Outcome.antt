-- ===== src/Approval/Resolve/Outcome.antt =====
-- approval_service.py: what a resolution needs, and what it leaves.
use night_ledger.Prelude.{
  String, true, false, ◌≡◌, refl, ap, ◌∙◌, Option, some, List, [], ◌∷◌, ◌++◌, filter, arith, leb,
  All, All-imp, Bool-cases, Option-cases, inl, inr, eq_iff,
}
use night_ledger.Prelude.Sort.{insert_after}
use night_ledger.Schema.{StoredEvent, EventPayload}
use night_ledger.Errors.{Error, Result, ok, raise, no_pending_approval}
use night_ledger.EventStore.{EventStore}
use night_ledger.EventStore.Contract.{place, has_id}
use night_ledger.RunStatus.{paused, RunStatusProjection, PendingApprovalContext, project_run_status}
use night_ledger.Approval.{Call, is_pending_signal, was_event_resolved}
use night_ledger.Approval.Drafts.{ApprovalDecision, latest_timestamp}
use night_ledger.Ingest.{Validated}
use night_ledger.Approval.Resolve.{
  paused_on, ResolutionResult, resolve_pending_approval, resolve_within, resolve_paused,
  resolve_matches,
}

pub latest_timestamp-bound :
    (events : List StoredEvent) → All (λ e. leb e.timestamp (latest_timestamp events) ≡ true) events
unfolding latest_timestamp
latest_timestamp-bound [] = tt
latest_timestamp-bound (e ∷ es) = (
  ground arith,
  All-imp _ (λ (x : StoredEvent). leb x.timestamp (latest_timestamp (e ∷ es)) ≡ true)
      (λ x h. ground arith) es (latest_timestamp-bound es),
)

pub place-last :
    (e : StoredEvent) (events : List StoredEvent)
    → All (λ x. leb x.timestamp e.timestamp ≡ true) events
    → place e events ≡ events ++ e ∷ []
unfolding insert_after
place-last e [] h = refl
place-last e (x ∷ xs) h = rw (h.0) (ap (λ l. x ∷ l) (place-last e xs h.1))

-- What a resolution requires of the state before it.
pub record IsResolvable {S : Type 0} (store : EventStore S) (s : S) (event_id : String)
    (target : StoredEvent) : Type 0 where
  pub unique : filter (has_id event_id) (store.list_all s) ≡ target ∷ []
  pub pending : is_pending_signal target ≡ true
  pub unresolved : was_event_resolved (store.list_by_run_id s target.run_id) event_id ≡ false
  pub context : PendingApprovalContext
  pub current :
      project_run_status (store.list_by_run_id s target.run_id)
      ≡ ok (record { status = paused; pending_approval = some context })
  pub asked : context.event_id ≡ event_id

returned_twice :
    {x : Result ResolutionResult} {e : Error} {r : ResolutionResult} → x ≡ raise e → x ≡ ok r → ⊥
returned_twice h k = cc

module _ {S : Type 0} (store : EventStore S) (model_validate : EventPayload → Validated)
    (call : Call) (event_id : String) (decision : ApprovalDecision) (approver : String)
    (reason : Option String) where
  paused_on-context :
      (p : RunStatusProjection)
      → paused_on p event_id ≡ true
      → (c : PendingApprovalContext) × (p ≡ record { status = paused; pending_approval = some c })
        × (c.event_id ≡ event_id)
  paused_on-context p h = elim (Option-cases p.pending_approval) [
    | inl e ↦ absurd (ground arith)
    | inr (c, e) ↦ (c, ground arith, (eq_iff c.event_id event_id).0 (ground arith))
  ]

  -- The last test, when the others let the call through.
  pub resolve_within-open :
      (s : S) (target : StoredEvent) (p : RunStatusProjection)
      → is_pending_signal target ≡ true
      → was_event_resolved (store.list_by_run_id s target.run_id) event_id ≡ false
      → project_run_status (store.list_by_run_id s target.run_id) ≡ ok p
      → resolve_within store model_validate call event_id decision approver reason target
          (store.list_by_run_id s target.run_id)
          s
        ≡ resolve_paused store model_validate call event_id decision approver reason target
            (store.list_by_run_id s target.run_id)
            p
            s
  resolve_within-open s target p e f k = rw (e, f, k) refl

  resolve_within-returned :
      (s : S) (target : StoredEvent) (r : ResolutionResult)
      → filter (has_id event_id) (store.list_all s) ≡ target ∷ []
      → (resolve_within store model_validate call event_id decision approver reason target
          (store.list_by_run_id s target.run_id)
          s).1
        ≡ ok r
      → IsResolvable store s event_id target
  unfolding resolve_paused
  resolve_within-returned s target r one h = elim (Bool-cases (is_pending_signal target)) [
    | inr e ↦ absurd (ground arith)
    | inl e ↦
        elim (Bool-cases (was_event_resolved (store.list_by_run_id s target.run_id) event_id)) [
          | inl f ↦ absurd (ground arith)
          | inr f ↦ go e f (project_run_status (store.list_by_run_id s target.run_id)) refl
        ]
  ]
    where
      refused :
          (p : RunStatusProjection)
          → paused_on p event_id ≡ false
          → (resolve_paused store model_validate call event_id decision approver reason target
              (store.list_by_run_id s target.run_id)
              p
              s).1
            ≡ raise (no_pending_approval event_id)
      refused p g = rw g refl

      go :
          is_pending_signal target ≡ true
          → was_event_resolved (store.list_by_run_id s target.run_id) event_id ≡ false
          → (p : Result RunStatusProjection)
          → project_run_status (store.list_by_run_id s target.run_id) ≡ p
          → IsResolvable store s event_id target
      go e f (raise x) k = absurd (ground arith)
      go e f (ok p) k = elim (Bool-cases (paused_on p event_id)) [
        | inr g ↦
            absurd
              (returned_twice {r = r} (refused p g) (rw (← resolve_within-open s target p e f k) h))
        | inl g ↦
            let (c, view, asked) = paused_on-context p g in
            record {
              unique = one;
              pending = e;
              unresolved = f;
              context = c;
              current = k ∙ ap ok view;
              asked = asked;
            }
      ]

  -- A resolution that returned was of an event whose identifier no other stored event has, that
  -- asks for approval, that no event of its run resolves, and on which its run was paused.
  pub resolve_pending_approval-IsResolvable :
      (s : S) (r : ResolutionResult)
      → (resolve_pending_approval store model_validate call event_id decision approver reason s).1
        ≡ ok r
      → (target : StoredEvent) × IsResolvable store s event_id target
  unfolding resolve_pending_approval
  resolve_pending_approval-IsResolvable s r h =
      go (filter (has_id event_id) (store.list_all s)) refl h
    where
      go :
          (found : List StoredEvent)
          → filter (has_id event_id) (store.list_all s) ≡ found
          → (resolve_matches store model_validate call event_id decision approver reason found s).1
            ≡ ok r
          → (target : StoredEvent) × IsResolvable store s event_id target
      go [] e h = cc
      go (target ∷ []) e h = (target, resolve_within-returned s target r e h)
      go (_ ∷ _ ∷ _) e h = cc
