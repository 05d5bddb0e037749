-- ===== src/RunStatus/Pending.antt =====
-- run_status_service.py: the pending approval of the projection, and its resolution.
use night_ledger.Prelude.{
  Bool, true, false, ◌≡◌, refl, ap, subst, none, some, List, [], ◌∷◌, ◌++◌, arith, is_some, ◌⊎◌,
  inl, inr, find?, str_eq, eq_iff, String, if◌then◌else◌, sym,
}
use night_ledger.Schema.{StoredEvent, is_approved}
use night_ledger.Errors.{Result, ok, raise, >>=-eq-ok, ok-injective, ◌>>=◌}
use night_ledger.RunStatus.Machine.{IsSigned}
use night_ledger.RunStatus.{
  RunWorkflowStatus, approved, RunStatusProjection, PendingApprovalContext, Progress, start,
  projection, resolve, request, observe, advance, step, project_from, project_run_status,
  to_terminal_status, pending_context_from_event, payload_is_resolution, rejected,
}
use night_ledger.RunStatus.Laws.{is_terminal, project_from-append, project_run_status-progress}

-- A round leaves the pending approval alone, or takes it from its event.
step-pending :
    (p : Progress) (event : StoredEvent) (q : Progress) (c : PendingApprovalContext)
    → step p event ≡ ok q
    → q.pending_approval ≡ some c
    → (p.pending_approval ≡ some c) ⊎ (event.id ≡ c.event_id)
unfolding step advance resolve request observe pending_context_from_event
step-pending p event q c h e = ground arith

abbrev pub has_id : String → StoredEvent → Bool
has_id event_id event = str_eq event.id event_id

project_from-pending :
    (p : Progress) (events : List StoredEvent) (q : Progress) (c : PendingApprovalContext)
    → project_from p events ≡ ok q
    → q.pending_approval ≡ some c
    → (p.pending_approval ≡ some c) ⊎ (is_some (find? (has_id c.event_id) events) ≡ true)
unfolding project_from find?
project_from-pending p [] q c h e =
    inl (rw (← e) (ap (λ (s : Progress). s.pending_approval) (ok-injective h)))
project_from-pending p (x ∷ xs) q c h e =
    let (m, first, rest) = >>=-eq-ok (step p x) (λ m. project_from m xs) h in
    elim (project_from-pending m xs q c rest e) [
      | inr later ↦ inr (ground arith)
      | inl now ↦ elim (step-pending p x m c first now) [
        | inl before ↦ inl before
        | inr same ↦ inr (ground (arith, eq_iff x.id c.event_id))
      ]
    ]

-- The pending approval that the projection names is an event of the run.
pub pending-is_event :
    (events : List StoredEvent) (r : RunStatusProjection) (c : PendingApprovalContext)
    → project_run_status events ≡ ok r
    → r.pending_approval ≡ some c
    → is_some (find? (has_id c.event_id) events) ≡ true
pending-is_event events r c h e =
    let (p, run, _, view) = project_run_status-progress events r h in
    elim (project_from-pending start events p c run
      (subst (λ (s : RunStatusProjection). s.pending_approval ≡ some c) (sym view) e)) [
        | inl never ↦ cc
        | inr found ↦ found
      ]

-- One more event is one more round.
pub project_run_status-snoc :
    (events : List StoredEvent) (event : StoredEvent) (p : Progress)
    → project_from start events ≡ ok p
    → project_run_status (events ++ event ∷ []) ≡ (step p event >>= λ q. ok (projection q))
unfolding project_run_status project_from
project_run_status-snoc events event p run =
    rw (project_from-append start events (event ∷ []), run, project_from) (one (step p event))
  where
    one :
        (r : Result Progress)
        → ((r >>= λ q. ok q) >>= λ q. ok (projection q)) ≡ (r >>= λ q. ok (projection q))
    one (ok q) = refl
    one (raise e) = refl

module _ (events : List StoredEvent) (event : StoredEvent) (r : RunStatusProjection)
    (runs : project_run_status events ≡ ok r) where
  -- A signed resolution of the pending approval, which does not end the run, leaves the run
  -- approved or rejected.
  pub project_run_status-resolved :
      (c : PendingApprovalContext)
      → r.pending_approval ≡ some c
      → to_terminal_status event.payload ≡ none
      → payload_is_resolution event.payload ≡ true
      → IsSigned event.payload
      → project_run_status (events ++ event ∷ [])
        ≡ ok (record {
          status = if is_approved event.payload.approval.status then approved else rejected;
          pending_approval = none;
        })
  unfolding step advance resolve
  project_run_status-resolved c e t f signed =
      let (p, run, coherent, view) = project_run_status-progress events r runs in
      rw (project_run_status-snoc events event p run)
        (ground (arith, coherent.pending, coherent.terminal, view))

  -- An event that ends a run which has not ended leaves it with that status.
  pub project_run_status-end :
      (t : RunWorkflowStatus)
      → is_terminal r.status ≡ false
      → to_terminal_status event.payload ≡ some t
      → project_run_status (events ++ event ∷ [])
        ≡ ok (record { status = t; pending_approval = none })
  unfolding step
  project_run_status-end t going e =
      let (p, run, coherent, view) = project_run_status-progress events r runs in
      rw (project_run_status-snoc events event p run) (ground (arith, coherent.terminal, view))
