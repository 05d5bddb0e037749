-- ===== src/RunStatus/Machine.antt =====
-- run_status_service.py: the projection as a state machine. A phase has what the three local
-- variables of the loop can be together, and `Moves` says which events take it where.
use night_ledger.Prelude.{
  Bool, true, false, ◌≡◌, refl, ap, none, some, List, [], ◌∷◌, arith, inl, inr, Bool-cases,
  Option-cases, ◌↔◌, is_none, ◌∙◌, sym,
}
use night_ledger.Schema.{StoredEvent, EventPayload, is_decided, is_approved}
use night_ledger.Errors.{ok, >>=-eq-ok, ok-injective}
use night_ledger.RunStatus.{
  RunWorkflowStatus, running, paused, approved, rejected, RunStatusProjection,
  PendingApprovalContext, Progress, start, projection, resolve, request, observe, advance, step,
  project_from, project_run_status, to_terminal_status, pending_context_from_event, is_missing,
  payload_is_resolution, payload_is_pending,
}

pub data Phase : Type 0 where
  open_run : Phase
  waiting : PendingApprovalContext → Phase
  granted refused : Phase
  ended : RunWorkflowStatus → Phase

abbrev pub progress_of : Phase → Progress
progress_of open_run = record { status = running; pending_approval = none; terminal_status = none }
progress_of (waiting c) = record {
  status = paused;
  pending_approval = some c;
  terminal_status = none;
}
progress_of granted = record { status = approved; pending_approval = none; terminal_status = none }
progress_of refused = record { status = rejected; pending_approval = none; terminal_status = none }
progress_of (ended s) = record { status = s; pending_approval = none; terminal_status = some s }

-- What a client is told of a phase.
abbrev pub view : Phase → RunStatusProjection
view p = projection (progress_of p)

abbrev pub has_ended : Phase → Bool
has_ended (ended s) = true
has_ended _ = false

-- Neither a request is waiting nor was the last one refused.
abbrev pub is_clear : Phase → Bool
is_clear open_run = true
is_clear granted = true
is_clear _ = false

-- A resolution that names its approver and its time.
pub record IsSigned (e : EventPayload) : Type 0 where
  pub decided : is_decided e.approval.status ≡ true
  pub approver : is_missing e.approval.resolved_by ≡ false
  pub time : is_none e.approval.resolved_at ≡ false

-- An event that is not the end of a run, by the two signals that it may carry.
pub record IsKind (e : EventPayload) (resolution pending : Bool) : Type 0 where
  pub goes_on : to_terminal_status e ≡ none
  pub resolution_is : payload_is_resolution e ≡ resolution
  pub pending_is : resolution ≡ false → payload_is_pending e ≡ pending

pub data Moves (p : Phase) (e : StoredEvent) (q : Phase) : Type 0 where
  ends :
      (s : RunWorkflowStatus)
      → to_terminal_status e.payload ≡ some s
      → has_ended p ≡ false
      → q ≡ ended s
      → Moves p e q
  asks :
      IsKind e.payload false true
      → is_clear p ≡ true
      → q ≡ waiting (pending_context_from_event e)
      → Moves p e q
  decides :
      (c : PendingApprovalContext) (pending : Bool)
      → IsKind e.payload true pending
      → IsSigned e.payload
      → p ≡ waiting c
      → q ≡ (elim (is_approved e.payload.approval.status) [ true ↦ granted | false ↦ refused ])
      → Moves p e q
  notes : IsKind e.payload false false → is_clear p ≡ true → q ≡ open_run → Moves p e q
  waits :
      (c : PendingApprovalContext)
      → IsKind e.payload false false
      → p ≡ waiting c
      → q ≡ waiting c
      → Moves p e q

pub data Runs : Phase → List StoredEvent → Phase → Type 0 where
  here : {p : Phase} → Runs p [] p
  next :
      {p q r : Phase} {e : StoredEvent} {es : List StoredEvent}
      → Moves p e q
      → Runs q es r
      → Runs p (e ∷ es) r

-- Every move is a round of the loop.
Moves-step :
    (p : Phase) (e : StoredEvent) (q : Phase)
    → Moves p e q
    → step (progress_of p) e ≡ ok (progress_of q)
unfolding step advance resolve request observe
Moves-step p e q (ends s t g k) = ground arith
Moves-step p e q (asks kind g k) = ground arith
Moves-step p e q (decides c b kind signed g k) = ground arith
Moves-step p e q (notes kind g k) = ground arith
Moves-step p e q (waits c kind g k) = ground arith

-- A round that returns is a move.
abbrev Stepped : Phase → StoredEvent → Progress → Type 0
Stepped p e m = (q : Phase) × Moves p e q × (m ≡ progress_of q)

module _ (e : StoredEvent) (goes_on : to_terminal_status e.payload ≡ none) where
  clear-Moves :
      (p : Phase) (m : Progress)
      → is_clear p ≡ true
      → advance (progress_of p) e ≡ ok m
      → Stepped p e m
  unfolding advance resolve request observe
  clear-Moves p m c h = elim (Bool-cases (payload_is_resolution e.payload)) [
    | inl f ↦ absurd (ground arith)
    | inr f ↦ elim (Bool-cases (payload_is_pending e.payload)) [
      | inl k ↦ (
        waiting (pending_context_from_event e),
        asks (record { goes_on = goes_on; resolution_is = f; pending_is = λ _. k }) c refl,
        ground arith,
      )
      | inr k ↦ (
        open_run,
        notes (record { goes_on = goes_on; resolution_is = f; pending_is = λ _. k }) c refl,
        ground arith,
      )
    ]
  ]

  waiting-Moves :
      (c : PendingApprovalContext) (m : Progress)
      → advance (progress_of (waiting c)) e ≡ ok m
      → Stepped (waiting c) e m
  unfolding advance resolve request observe
  waiting-Moves c m h = elim (Bool-cases (payload_is_resolution e.payload)) [
    | inl f ↦ (
      _,
      decides c false (record { goes_on = goes_on; resolution_is = f; pending_is = λ x. cc })
          (record { decided = ground arith; approver = ground arith; time = ground arith }) refl
          refl,
      ground arith,
    )
    | inr f ↦ elim (Bool-cases (payload_is_pending e.payload)) [
      | inl k ↦ absurd (ground arith)
      | inr k ↦ (
        waiting c,
        waits c (record { goes_on = goes_on; resolution_is = f; pending_is = λ _. k }) refl refl,
        ground arith,
      )
    ]
  ]

step-Moves :
    (p : Phase) (e : StoredEvent) (m : Progress) → step (progress_of p) e ≡ ok m → Stepped p e m
step-Moves p e m h = elim (Option-cases (to_terminal_status e.payload)) [
  | inl t ↦ plain p t h
  | inr (s, t) ↦ final p s t h
]
  where
    plain :
        (p : Phase)
        → to_terminal_status e.payload ≡ none
        → step (progress_of p) e ≡ ok m
        → Stepped p e m
    plain open_run t h = clear-Moves e t open_run m refl (unfold step in ground (arith, t))
    plain granted t h = clear-Moves e t granted m refl (unfold step in ground (arith, t))
    plain (waiting c) t h = waiting-Moves e t c m (unfold step in ground (arith, t))
    plain refused t h = absurd (unfold step in ground (arith, t))
    plain (ended s) t h = absurd (unfold step in ground (arith, t))

    final :
        (p : Phase) (s : RunWorkflowStatus)
        → to_terminal_status e.payload ≡ some s
        → step (progress_of p) e ≡ ok m
        → Stepped p e m
    final (ended u) s t h = absurd (unfold step in ground (arith, t))
    final open_run s t h = (ended s, ends s t refl refl, unfold step in ground (arith, t))
    final _ s t h = (ended s, ends s t refl refl, unfold step in ground (arith, t))

Runs-project :
    (p q : Phase) (events : List StoredEvent)
    → Runs p events q
    → project_from (progress_of p) events ≡ ok (progress_of q)
unfolding project_from
Runs-project p q [] here = refl
Runs-project p q (e ∷ es) (next {q = m} move rest) =
    rw (Moves-step p e m move) (Runs-project m q es rest)

project-Runs :
    (p : Phase) (events : List StoredEvent) (m : Progress)
    → project_from (progress_of p) events ≡ ok m
    → (q : Phase) × Runs p events q × (m ≡ progress_of q)
unfolding project_from
project-Runs p [] m h = (p, here, sym (ok-injective h))
project-Runs p (e ∷ es) m h =
    let (k, first, rest) = >>=-eq-ok (step (progress_of p) e) (λ k. project_from k es) h in
    let (n, move, at_n) = step-Moves p e k first in
    let (q, run, at_q) = project-Runs n es m (rw at_n at rest) in (q, next move run, at_q)

-- The projection is the state machine: it returns `r` exactly when the moves lead through all
-- events, from the open phase to one of which `r` is the view. Where they do not, it raises.
pub project_run_status-Runs :
    (events : List StoredEvent) (r : RunStatusProjection)
    → (project_run_status events ≡ ok r) ↔ ((q : Phase) × Runs open_run events q × (view q ≡ r))
unfolding project_run_status
project_run_status-Runs events r = (
  λ h.
      let (p, run, e) = >>=-eq-ok (project_from start events) (λ p. ok (projection p)) h in
      let (q, runs, at_q) = project-Runs open_run events p run in
      (q, runs, ap projection (sym at_q) ∙ ok-injective e),
  λ (q, runs, e). rw (Runs-project open_run q events runs) (ap ok e),
)
