-- ===== src/BusinessRules/Unprojectable.antt =====
-- business_rules_service.py against run_status_service.py: events that the rules admit, and after
-- which the run cannot be projected any more.
use night_ledger.Prelude.{
  Bool, true, false, ◌||◌, ◌≡◌, refl, ap, sym, ◌∙◌, Option, none, some, List, [], ◌∷◌, ◌++◌, arith,
  is_none, is_some, get_last?, inl, inr, Bool-cases, Option-cases, leb, All,
}
use night_ledger.Schema.{
  EventPayload, EventType, StoredEvent, is_summary, is_action, is_approval_requested,
  is_approval_resolved, is_decided, is_pending,
}
use night_ledger.Errors.{Error, ok, raise, is_ok, conflict, Result-cases}
use night_ledger.EventStore.Contract.{place}
use night_ledger.RunStatus.{
  RunStatusProjection, PendingApprovalContext, Progress, start, project_run_status, project_from,
  step, advance, resolve, request, to_terminal_status, is_missing, status_is_rejected,
  is_resolution_signal,
}
use night_ledger.RunStatus.Laws.{is_terminal, project_from-append, project_run_status-progress}
use night_ledger.BusinessRules.{
  last_terminal, event_decision, decision_differs, find_event_by_id, validate_event_business_rules,
}
use night_ledger.BusinessRules.Admission.{accepted-iff_IsAdmissible}
use night_ledger.BusinessRules.Projectable.{project_from-last}

-- An event at which a round raises, whatever follows it.
project_run_status-fails :
    (events more : List StoredEvent) (event : StoredEvent) (p : Progress) (x : Error)
    → project_from start events ≡ ok p
    → step p event ≡ raise x
    → project_run_status (events ++ event ∷ more) ≡ raise x
unfolding project_run_status project_from
project_run_status-fails events more event p x run failed =
    rw (project_from-append start events (event ∷ more), run, failed) refl

-- A run that waits has not ended.
waiting-is_open :
    (existing : List StoredEvent) (r : RunStatusProjection)
    → project_run_status existing ≡ ok r
    → is_some r.pending_approval ≡ true
    → last_terminal (get_last? existing) ≡ none
waiting-is_open existing r projects pending =
    let (p, run, c, view) = project_run_status-progress existing r projects in
    sym (project_from-last existing p run) ∙ elim (Option-cases p.terminal_status) [
      | inl e ↦ e
      | inr (t, e) ↦ absurd (ground (arith, c.pending, c.terminal, view))
    ]

resolution_is_other :
    (t : EventType)
    → is_approval_resolved t ≡ true
    → (is_approval_requested t ≡ false) × (is_summary t ≡ false) × (is_action t ≡ false)
resolution_is_other t h = (ground arith, ground arith, ground arith)

-- The resolution is of the decision of the pending approval, and names its approver and its time.
pub record IsAnswer (event : EventPayload) (existing : List StoredEvent)
    (pending : PendingApprovalContext) : Type 0 where
  pub resolves : is_approval_resolved event.type ≡ true
  pub same_decision :
      decision_differs
        (event_decision (find_event_by_id existing (some pending.event_id)))
        event.approval.decision_id
      ≡ false
  pub approver : is_missing event.approval.resolved_by ≡ false
  pub time : is_none event.approval.resolved_at ≡ false

-- The rules admit it, whatever its status is.
answer-admitted :
    (event : EventPayload) (existing : List StoredEvent) (r : RunStatusProjection)
    (pending : PendingApprovalContext)
    → project_run_status existing ≡ ok r
    → r.pending_approval ≡ some pending
    → IsAnswer event existing pending
    → validate_event_business_rules event existing ≡ ok tt
answer-admitted event existing r pending projects waits a =
    let (unasked, unended, idle) = resolution_is_other event.type a.resolves in
    (accepted-iff_IsAdmissible event existing).1 (record {
      open_run = waiting-is_open existing r projects (ap is_some waits);
      request = λ t. absurd cc;
      resolution = λ _. record {
        r = r;
        pending = pending;
        projects = projects;
        is_pending = waits;
        same_decision = a.same_decision;
        approver = a.approver;
        time = a.time;
      };
      completion = λ t. absurd cc;
      evidence = λ t. absurd cc;
    })

-- No resolution and no summary is admitted to a run that cannot be projected.
unprojectable-refuses :
    (later : EventPayload) (events : List StoredEvent) (x : Error)
    → project_run_status events ≡ raise x
    → (is_approval_resolved later.type || is_summary later.type) ≡ true
    → is_ok (validate_event_business_rules later events) ≡ false
unprojectable-refuses later events x failed closes =
    elim (Result-cases (validate_event_business_rules later events)) [
      | inr (y, h) ↦ rw h refl
      | inl (u, h) ↦
          let i = (accepted-iff_IsAdmissible later events).0 h in
          absurd (elim (Bool-cases (is_approval_resolved later.type)) [
            | inl t ↦ let projects = (i.resolution t).projects in cc
            | inr t ↦
                let (unflagged, unasked, clear) = i.completion (ground arith) in
                let projects = clear.projects in cc
          ])
    ]

module _ (event : EventPayload) (existing more : List StoredEvent) (stored : StoredEvent)
    (r : RunStatusProjection) (is_record : stored.payload ≡ event)
    (projects : project_run_status existing ≡ ok r)
    (goes_on : to_terminal_status event ≡ none) where
  -- The rules admit an `approval_resolved` that answers the pending approval, but is neither to
  -- approved nor to rejected. Listed last, unless its step ends the run, it makes the projection
  -- raise INVALID_APPROVAL_TRANSITION, also with any further events listed after it, and the rules
  -- admit no resolution and no summary to these.
  pub undecided_resolution-unprojectable :
      (later : EventPayload) (pending : PendingApprovalContext)
      → r.pending_approval ≡ some pending
      → IsAnswer event existing pending
      → is_decided event.approval.status ≡ false
      → (is_approval_resolved later.type || is_summary later.type) ≡ true
      → (validate_event_business_rules event existing ≡ ok tt)
        × (project_run_status (existing ++ stored ∷ more)
            ≡ conflict "approval.status" "approval_resolved must use approved or rejected status"
                "INVALID_APPROVAL_TRANSITION")
        × (is_ok (validate_event_business_rules later (existing ++ stored ∷ more)) ≡ false)
  unfolding step advance resolve is_resolution_signal
  undecided_resolution-unprojectable later pending waits answer undecided closes =
      let (p, run, c, view) = project_run_status-progress existing r projects in
      let resolves = answer.resolves in
      let fails =
        project_run_status-fails existing more stored p _ run
          (ground (arith, c.pending, c.terminal, view, resolves, undecided, is_record, goes_on)) in
      (
        answer-admitted event existing r pending projects waits answer,
        fails,
        unprojectable-refuses later (existing ++ stored ∷ more) _ fails closes,
      )

-- Between the events that are not later than it, and the first that is.
place-between :
    (e next : StoredEvent) (before after : List StoredEvent)
    → All (λ (x : StoredEvent). leb x.timestamp e.timestamp ≡ true) before
    → leb next.timestamp e.timestamp ≡ false
    → place e (before ++ next ∷ after) ≡ before ++ e ∷ next ∷ after
unfolding night_ledger.Prelude.Sort.insert_after
place-between e next [] after earlier late = rw late refl
place-between e next (x ∷ before) after earlier late =
    rw (earlier.0) (ap (λ l. x ∷ l) (place-between e next before after earlier.1 late))

-- The rules judge an event as if it came last, and the stores list it at its time. They admit an
-- `approval_resolved` that answers the pending approval, to approved or rejected, but whose time
-- is before the request; listed where no approval was pending, it makes the projection raise
-- NO_PENDING_APPROVAL, if the run was neither ended nor rejected there and its step does not end
-- the run.
pub early_resolution-unprojectable :
    (event : EventPayload) (before after : List StoredEvent) (next stored : StoredEvent)
    (prior r : RunStatusProjection) (pending : PendingApprovalContext)
    → stored.payload ≡ event
    → All (λ (x : StoredEvent). leb x.timestamp stored.timestamp ≡ true) before
    → leb next.timestamp stored.timestamp ≡ false
    → project_run_status before ≡ ok prior
    → prior.pending_approval ≡ none
    → is_terminal prior.status ≡ false
    → status_is_rejected prior.status ≡ false
    → project_run_status (before ++ next ∷ after) ≡ ok r
    → r.pending_approval ≡ some pending
    → IsAnswer event (before ++ next ∷ after) pending
    → is_decided event.approval.status ≡ true
    → to_terminal_status event ≡ none
    → (validate_event_business_rules event (before ++ next ∷ after) ≡ ok tt)
      × (project_run_status (place stored (before ++ next ∷ after))
          ≡ conflict "approval" "approval_resolved encountered without pending approval"
              "NO_PENDING_APPROVAL")
unfolding step advance resolve is_resolution_signal
early_resolution-unprojectable event before after next stored prior r pending is_record earlier late
      projects_prior clear going kept projects waits answer decided goes_on =
    let (p, run, c, view) = project_run_status-progress before prior projects_prior in
    let resolves = answer.resolves in
    (
      answer-admitted event (before ++ next ∷ after) r pending projects waits answer,
      ap project_run_status (place-between stored next before after earlier late)
          ∙ project_run_status-fails before (next ∷ after) stored p _ run (
              ground (
                arith, c.pending, c.terminal, view, clear, going, kept, resolves, decided,
                is_record, goes_on,
              )),
    )
