-- ===== src/RunStatus/Laws.antt =====
-- run_status_service.py: which results the projection can have, and how it goes on.
use night_ledger.Prelude.{
  String, Bool, true, false, ◌≡◌, refl, Option, none, some, List, [], ◌∷◌, ◌++◌, arith, is_some,
  inl, inr, Bool-cases, Option-cases, subst, sym, ap, ◌∙◌, ◌↔◌,
}
use night_ledger.Schema.{StoredEvent, EventPayload, EventMeta, is_summary}
use night_ledger.Errors.{Result, ok, raise, >>=-eq-ok, ok-injective, ◌>>=◌}
use night_ledger.RunStatus.{
  RunWorkflowStatus, paused, completed, stopped, expired, RunStatusProjection, Progress, start,
  projection, resolve, request, observe, advance, step, project_from, project_run_status,
  continued_after, to_terminal_status, terminal_step_status, meta_status, status_is_rejected,
}

-- The loop over two lists is the loop over the second from where the first ends.
pub project_from-append :
    (p : Progress) (xs ys : List StoredEvent)
    → project_from p (xs ++ ys) ≡ (project_from p xs >>= λ q. project_from q ys)
unfolding project_from
project_from-append p [] ys = refl
project_from-append p (x ∷ xs) ys = go (step p x) (λ q. project_from-append q xs ys)
  where
    go :
        (r : Result Progress)
        → ((q : Progress)
            → project_from q (xs ++ ys) ≡ (project_from q xs >>= λ q'. project_from q' ys))
        → (r >>= λ q. project_from q (xs ++ ys))
          ≡ ((r >>= λ q. project_from q xs) >>= λ q. project_from q ys)
    go (ok q) ih = ih q
    go (raise e) ih = refl

abbrev pub is_terminal : RunWorkflowStatus → Bool
is_terminal completed = true
is_terminal stopped = true
is_terminal expired = true
is_terminal _ = false

abbrev pub is_paused : RunWorkflowStatus → Bool
is_paused paused = true
is_paused _ = false

-- What holds of the local variables before and after each round of the loop.
pub record IsCoherent (p : Progress) : Type 0 where
  pub pending : is_paused p.status ≡ is_some p.pending_approval
  pub terminal : is_terminal p.status ≡ is_some p.terminal_status
  pub same : (t : RunWorkflowStatus) → p.terminal_status ≡ some t → p.status ≡ t

start-IsCoherent : IsCoherent start
start-IsCoherent = record { pending = refl; terminal = refl; same = λ t h. cc }

terminal_step-is_terminal :
    (s : String) (t : RunWorkflowStatus) → terminal_step_status s ≡ some t → is_terminal t ≡ true
unfolding terminal_step_status
terminal_step-is_terminal s t h = ground arith

pub to_terminal-is_terminal :
    (payload : EventPayload) (t : RunWorkflowStatus)
    → to_terminal_status payload ≡ some t
    → is_terminal t ≡ true
unfolding to_terminal_status
to_terminal-is_terminal payload t h = elim (Bool-cases (is_summary payload.type)) [
  | inl e ↦ ground (arith, e)
  | inr e ↦ go payload.meta (rw (← h) (rw e))
]
  where
    go : (m : Option EventMeta) → meta_status m ≡ some t → is_terminal t ≡ true
    go none k = cc
    go (some m) k = terminal_step-is_terminal m.step t k

advance-IsCoherent :
    (p : Progress) (event : StoredEvent) (q : Progress)
    → IsCoherent p
    → p.terminal_status ≡ none
    → status_is_rejected p.status ≡ false
    → advance p event ≡ ok q
    → IsCoherent q
unfolding advance resolve request observe
advance-IsCoherent p event q c open_run kept h = record {
  pending = ground arith;
  terminal = ground arith;
  same = λ t e. ground arith;
}

step-IsCoherent :
    (p : Progress) (event : StoredEvent) (q : Progress)
    → IsCoherent p
    → step p event ≡ ok q
    → IsCoherent q
unfolding step
step-IsCoherent p event q c h = elim (Option-cases p.terminal_status) [
  | inr (t, e) ↦ absurd (ground arith)
  | inl e ↦ elim (Option-cases (to_terminal_status event.payload)) [
    | inr (t, f) ↦ record {
      pending = ground (arith, to_terminal-is_terminal event.payload t);
      terminal = ground (arith, to_terminal-is_terminal event.payload t);
      same = λ u k. ground arith;
    }
    | inl f ↦ elim (Bool-cases (status_is_rejected p.status)) [
      | inl r ↦ absurd (ground arith)
      | inr r ↦ advance-IsCoherent p event q c e r (ground arith)
    ]
  ]
]

project_from-IsCoherent :
    (p : Progress) (events : List StoredEvent) (q : Progress)
    → IsCoherent p
    → project_from p events ≡ ok q
    → IsCoherent q
unfolding project_from
project_from-IsCoherent p [] q c h = subst IsCoherent (ok-injective h) c
project_from-IsCoherent p (x ∷ xs) q c h =
    let (m, first, rest) = >>=-eq-ok (step p x) (λ m. project_from m xs) h in
    project_from-IsCoherent m xs q (step-IsCoherent p x m c first) rest

-- The loop has local variables that are coherent wherever it returns.
pub project_run_status-progress :
    (events : List StoredEvent) (r : RunStatusProjection)
    → project_run_status events ≡ ok r
    → (p : Progress) × (project_from start events ≡ ok p) × IsCoherent p × (projection p ≡ r)
unfolding project_run_status
project_run_status-progress events r h =
    let (p, run, e) = >>=-eq-ok (project_from start events) (λ p. ok (projection p)) h in
    (p, run, project_from-IsCoherent start events p start-IsCoherent run, ok-injective e)

-- A run is projected as paused exactly when the projection names a pending approval.
pub paused-iff-pending :
    (events : List StoredEvent) (r : RunStatusProjection)
    → project_run_status events ≡ ok r
    → (is_paused r.status ≡ true) ↔ (is_some r.pending_approval ≡ true)
paused-iff-pending events r h =
    let (p, run, c, e) = project_run_status-progress events r h in
    let same : is_paused r.status ≡ is_some r.pending_approval =
      subst (λ s. is_paused s.status ≡ is_some s.pending_approval) e c.pending in
    (λ k. sym same ∙ k, λ k. same ∙ k)

project_from-ended :
    (p : Progress) (t : RunWorkflowStatus) (event : StoredEvent) (more : List StoredEvent)
    → p.terminal_status ≡ some t
    → project_from p (event ∷ more) ≡ continued_after t
unfolding project_from step
project_from-ended p t event more h = ground arith

ended-terminal_status :
    (p : Progress) → IsCoherent p → is_terminal p.status ≡ true → p.terminal_status ≡ some p.status
ended-terminal_status p c h = elim (Option-cases p.terminal_status) [
  | inl e ↦ absurd (ground arith)
  | inr (t, e) ↦ cc (e, c.same t e)
]

-- Once a run is projected as completed, stopped or expired, a stream that goes on is refused with
-- TERMINAL_STATE_CONFLICT, whatever the further events are; the message names the status.
pub project_run_status-after_terminal :
    (events more : List StoredEvent) (event : StoredEvent) (r : RunStatusProjection)
    → project_run_status events ≡ ok r
    → is_terminal r.status ≡ true
    → project_run_status (events ++ event ∷ more) ≡ continued_after r.status
unfolding project_run_status
project_run_status-after_terminal events more event r h t =
    let (p, run, c, e) = project_run_status-progress events r h in
    let status : p.status ≡ r.status = ap (λ (s : RunStatusProjection). s.status) e in
    let ends : p.terminal_status ≡ some r.status =
      subst (λ s. p.terminal_status ≡ some s) status (ended-terminal_status p c (rw status t)) in
    rw (
      project_from-append start events (event ∷ more),
      run,
      project_from-ended p r.status event more ends,
    )
