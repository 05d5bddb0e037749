-- ===== src/BusinessRules/Projectable.antt =====
-- business_rules_service.py against run_status_service.py: what an admitted event does to the
-- projection of its run.
use night_ledger.Prelude.{
  true, false, ◌≡◌, refl, ap, sym, subst, ◌∙◌, Option, none, some, List, [], ◌∷◌, ◌++◌, arith,
  is_none, is_some, get_last?, if◌then◌else◌, Option-cases, inl, inr,
}
use night_ledger.Schema.{EventPayload, StoredEvent, is_summary, is_approval_resolved, is_decided}
use night_ledger.Errors.{ok, is_ok, >>=-eq-ok, ok-injective, ◌>>=◌}
use night_ledger.RunStatus.{
  completed, RunStatusProjection, Progress, start, projection, project_run_status, project_from,
  step, advance, resolve, request, observe, to_terminal_status, terminal_step_status,
  payload_is_pending, payload_is_resolution, is_missing, status_is_rejected, meta_status,
}
use night_ledger.RunStatus.Laws.{is_terminal, IsCoherent, project_run_status-progress}
use night_ledger.RunStatus.Pending.{project_run_status-snoc}
use night_ledger.BusinessRules.{
  last_terminal, terminal_status_from_event_payload, meta_terminal, validate_event_business_rules,
}
use night_ledger.BusinessRules.Admission.{accepted-iff_IsAdmissible}

-- The two services read the end of a run from an event in the same way.
same_terminal : (e : EventPayload) → terminal_status_from_event_payload e ≡ to_terminal_status e
unfolding terminal_status_from_event_payload to_terminal_status terminal_step_status
same_terminal e = go e.meta
  where
    go :
        (m : Option _)
        → (if is_summary e.type then some completed else meta_terminal m)
          ≡ (if is_summary e.type then some completed else meta_status m)
    go none = refl
    go (some x) = refl

step-terminal :
    (p : Progress) (e : StoredEvent) (m : Progress)
    → step p e ≡ ok m
    → m.terminal_status ≡ to_terminal_status e.payload
unfolding step advance resolve request observe
step-terminal p e m h = ground arith

-- The loop knows that the run has ended only from the last event.
project_from-last_terminal :
    (p : Progress) (e : StoredEvent) (es : List StoredEvent) (q : Progress)
    → project_from p (e ∷ es) ≡ ok q
    → q.terminal_status ≡ last_terminal (get_last? (e ∷ es))
unfolding project_from get_last?
project_from-last_terminal p e [] q h =
    let (m, first, rest) = >>=-eq-ok (step p e) (λ m. project_from m []) h in
    rw (← ok-injective rest, step-terminal p e m first, same_terminal e.payload)
project_from-last_terminal p e (f ∷ es) q h =
    let (m, first, rest) = >>=-eq-ok (step p e) (λ m. project_from m (f ∷ es)) h in
    project_from-last_terminal m f es q rest

-- Over a whole run, with none of it too.
pub project_from-last :
    (existing : List StoredEvent) (p : Progress)
    → project_from start existing ≡ ok p
    → p.terminal_status ≡ last_terminal (get_last? existing)
unfolding project_from get_last?
project_from-last [] p run = ap (λ (q : Progress). q.terminal_status) (sym (ok-injective run))
project_from-last (e ∷ es) p run = project_from-last_terminal start e es p run

-- A run to which the rules admit an event has not ended.
pub accepted-is_open :
    (event : EventPayload) (existing : List StoredEvent) (r : RunStatusProjection)
    → validate_event_business_rules event existing ≡ ok tt
    → project_run_status existing ≡ ok r
    → is_terminal r.status ≡ false
accepted-is_open event existing r accepted h =
    let (p, run, c, view) = project_run_status-progress existing r h in
    let open_run = ((accepted-iff_IsAdmissible event existing).0 accepted).open_run in
    subst (λ (s : RunStatusProjection). is_terminal s.status ≡ false) view
      (c.terminal ∙ ap is_some (project_from-last existing p run ∙ open_run))

-- When a round of the loop returns.
step-is_ok :
    (p : Progress) (s : StoredEvent)
    → p.terminal_status ≡ none
    → status_is_rejected p.status ≡ false
    → (payload_is_pending s.payload ≡ true → is_none p.pending_approval ≡ true)
    → (payload_is_resolution s.payload ≡ true
        → (is_some p.pending_approval ≡ true)
          × (is_decided s.payload.approval.status ≡ true)
          × (is_missing s.payload.approval.resolved_by ≡ false)
          × (is_none s.payload.approval.resolved_at ≡ false))
    → is_ok (step p s >>= λ q. ok (projection q)) ≡ true
unfolding step advance resolve request observe
step-is_ok p s t k single answered = ground arith

module _ (event : EventPayload) (existing : List StoredEvent) (stored : StoredEvent)
    (r : RunStatusProjection) (is_record : stored.payload ≡ event)
    (projects : project_run_status existing ≡ ok r) where
  -- An event that the rules admit keeps the run projectable where it is listed last, if the run was
  -- not rejected, the event asks for no second approval, carries a resolution only as
  -- `approval_resolved`, and resolves to approved or rejected. (The rules do not check these
  -- conditions.)
  pub accepted-keeps_projectable :
      validate_event_business_rules event existing ≡ ok tt
      → status_is_rejected r.status ≡ false
      → (payload_is_pending event ≡ true → is_none r.pending_approval ≡ true)
      → payload_is_resolution event ≡ is_approval_resolved event.type
      → (is_approval_resolved event.type ≡ true → is_decided event.approval.status ≡ true)
      → is_ok (project_run_status (existing ++ stored ∷ [])) ≡ true
  accepted-keeps_projectable accepted kept single typed decided =
      let (p, run, c, view) = project_run_status-progress existing r projects in
      let i = (accepted-iff_IsAdmissible event existing).0 accepted in
      let pending : p.pending_approval ≡ r.pending_approval =
        ap (λ (s : RunStatusProjection). s.pending_approval) view in
      let status : p.status ≡ r.status = ap (λ (s : RunStatusProjection). s.status) view in
      rw (project_run_status-snoc existing stored p run) (
        step-is_ok p stored
          (not_ended p c
            (ap is_terminal status ∙ accepted-is_open event existing r accepted projects))
          (ap status_is_rejected status ∙ kept)
          (λ h. ap is_none pending ∙ single (rw is_record at h))
          (λ h.
            let t = sym typed ∙ rw is_record at h in
            let a = i.resolution t in
            let same : a.r ≡ r = ok-injective (sym a.projects ∙ projects) in
            rw is_record
              (ground (arith, pending, same, a.is_pending), decided t, a.approver, a.time)))
    where
      not_ended :
          (p : Progress) → IsCoherent p → is_terminal p.status ≡ false → p.terminal_status ≡ none
      not_ended p c h = elim (Option-cases p.terminal_status) [
        | inl e ↦ e
        | inr (t, e) ↦ absurd (ground (arith, c.terminal))
      ]
