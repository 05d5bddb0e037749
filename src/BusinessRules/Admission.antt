-- ===== src/BusinessRules/Admission.antt =====
-- business_rules_service.py: which events the rules admit to a run.
use night_ledger.Prelude.{
  Bool, true, false, not, ◌||◌, ◌≡◌, ◌↔◌, refl, ap, sym, ◌∙◌, Option, none, some, List, [], ◌∷◌,
  ◌++◌, arith, is_none, is_some, is_empty, get_last?, Bool-cases, Option-cases, inl, inr,
}
use night_ledger.Schema.{
  EventPayload, StoredEvent, is_summary, is_action, is_approval_requested, is_approval_resolved,
  is_pending, is_not_required, is_high,
}
use night_ledger.Errors.{
  Result, ok, raise, >>=-eq-ok, ok-injective, inconsistent_run_state, BusinessRuleViolationDetail,
}
use night_ledger.RunStatus.{
  RunStatusProjection, PendingApprovalContext, project_run_status, project_from, is_missing,
}
use night_ledger.BusinessRules.{
  Violations, when, projected, project_existing_run_status, find_event_by_id, pending_of,
  last_terminal, continued, terminal_violations, requested_violations, event_decision,
  decision_differs, target_violations, signature_violations, resolved_violations,
  summary_violations, risk_violations, raise_violations, validate_event_business_rules,
}

-- A resolution of the pending approval of the run, of its decision, with its approver and time.
pub record AnswersPending (event : EventPayload) (existing : List StoredEvent) : Type 0 where
  pub r : RunStatusProjection
  pub pending : PendingApprovalContext
  pub projects : project_run_status existing ≡ ok r
  pub is_pending : r.pending_approval ≡ some pending
  pub same_decision :
      decision_differs
        (event_decision (find_event_by_id existing (some pending.event_id)))
        event.approval.decision_id
      ≡ false
  pub approver : is_missing event.approval.resolved_by ≡ false
  pub time : is_none event.approval.resolved_at ≡ false

pub record NonePending (existing : List StoredEvent) : Type 0 where
  pub r : RunStatusProjection
  pub projects : project_run_status existing ≡ ok r
  pub is_clear : r.pending_approval ≡ none

pub record IsAdmissible (event : EventPayload) (existing : List StoredEvent) : Type 0 where
  pub open_run : last_terminal (get_last? existing) ≡ none
  pub request :
      is_approval_requested event.type ≡ true
      → (event.requires_approval ≡ true) × (is_pending event.approval.status ≡ true)
  pub resolution : is_approval_resolved event.type ≡ true → AnswersPending event existing
  pub completion :
      is_summary event.type ≡ true
      → (event.requires_approval ≡ false)
        × (is_not_required event.approval.status ≡ true)
        × NonePending existing
  pub evidence :
      is_action event.type ≡ true
      → (is_high event.risk_level || event.requires_approval) ≡ true
      → is_empty event.evidence ≡ false

append-eq-nil {ℓ} : {A : Type ℓ} (xs ys : List A) → xs ++ ys ≡ [] → (xs ≡ []) × (ys ≡ [])
append-eq-nil [] ys h = (refl, h)
append-eq-nil (x ∷ xs) ys h = cc

-- The five parts have no violation.
record AllEmpty (event : EventPayload) (existing : List StoredEvent) : Type 0 where
  terminal : terminal_violations existing ≡ []
  requested : requested_violations event ≡ []
  resolved : resolved_violations event existing ≡ ok []
  completed : summary_violations event existing ≡ ok []
  risk : risk_violations event ≡ []

raise_violations-ok : (vs : Violations) → raise_violations vs ≡ ok tt → vs ≡ []
raise_violations-ok [] h = refl
raise_violations-ok (v ∷ vs) h = cc

module _ (event : EventPayload) (existing : List StoredEvent) where
  accepted-AllEmpty : validate_event_business_rules event existing ≡ ok tt → AllEmpty event existing
  unfolding validate_event_business_rules
  accepted-AllEmpty h =
      let (res, e_res, h₁) = >>=-eq-ok (resolved_violations event existing) _ h in
      let (sum, e_sum, h₂) = >>=-eq-ok (summary_violations event existing) _ h₁ in
      let (t, rest₁) = append-eq-nil (terminal_violations existing) _ (raise_violations-ok _ h₂) in
      let (q, rest₂) = append-eq-nil (requested_violations event) _ rest₁ in
      let (r, rest₃) = append-eq-nil res _ rest₂ in
      let (s, k) = append-eq-nil sum _ rest₃ in
      record {
        terminal = t;
        requested = q;
        resolved = e_res ∙ ap ok r;
        completed = e_sum ∙ ap ok s;
        risk = k;
      }

  AllEmpty-accepted : AllEmpty event existing → validate_event_business_rules event existing ≡ ok tt
  unfolding validate_event_business_rules
  AllEmpty-accepted a = rw (a.resolved, a.completed, a.terminal, a.requested, a.risk)

  terminal_iff : (terminal_violations existing ≡ []) ↔ (last_terminal (get_last? existing) ≡ none)
  unfolding terminal_violations
  terminal_iff = go (last_terminal (get_last? existing))
    where
      go : (o : Option _) → (continued o ≡ []) ↔ (o ≡ none)
      go none = (λ _. refl, λ _. refl)
      go (some t) = (λ h. cc, λ h. cc)

-- The projection of a run without events is not made; it would be of a running run.
project_existing_iff :
    (existing : List StoredEvent) (o : Option RunStatusProjection)
    → project_existing_run_status existing ≡ ok o
    → (r : RunStatusProjection) × (project_run_status existing ≡ ok r)
      × (pending_of o ≡ r.pending_approval)
unfolding project_existing_run_status project_run_status project_from
project_existing_iff [] o h = (_, refl, ap pending_of (sym (ok-injective h)))
project_existing_iff (e ∷ es) o h = go (project_run_status (e ∷ es)) refl h
  where
    go :
        (m : Result RunStatusProjection)
        → project_run_status (e ∷ es) ≡ m
        → projected m ≡ ok o
        → (r : RunStatusProjection) × (project_run_status (e ∷ es) ≡ ok r)
          × (pending_of o ≡ r.pending_approval)
    go (ok r) k f = (r, k, ap pending_of (sym (ok-injective f)))
    go (raise (inconsistent_run_state x)) k f = cc
    go (raise _) k f = cc

existing-projected :
    (existing : List StoredEvent) (r : RunStatusProjection)
    → project_run_status existing ≡ ok r
    → (o : Option RunStatusProjection) × (project_existing_run_status existing ≡ ok o)
      × (pending_of o ≡ r.pending_approval)
unfolding project_existing_run_status project_run_status project_from
existing-projected [] r h =
    (none, refl, ap (λ (s : RunStatusProjection). s.pending_approval) (ok-injective h))
existing-projected (e ∷ es) r h = (some r, ap projected h, refl)

when-nil : (b : Bool) (v : BusinessRuleViolationDetail) → when b v ≡ [] → b ≡ false
when-nil true v h = cc
when-nil false v h = refl

signature-nil :
    (event : EventPayload)
    → signature_violations event ≡ []
    → (is_missing event.approval.resolved_by ≡ false) × (is_none event.approval.resolved_at ≡ false)
unfolding signature_violations
signature-nil event h = ground arith

when-nil₃ :
    (a b c : Bool) (u v w : BusinessRuleViolationDetail)
    → when a u ++ (when (not b) v ++ when c w) ≡ []
    → (a ≡ false) × (b ≡ true) × (c ≡ false)
when-nil₃ a b c u v w h = ground arith

module _ (event : EventPayload) (existing : List StoredEvent) where
  resolution-empty :
      is_approval_resolved event.type ≡ true
      → resolved_violations event existing ≡ ok []
      → AnswersPending event existing
  unfolding resolved_violations
  resolution-empty t h =
      let (o, e, k) = >>=-eq-ok (project_existing_run_status existing) _ (rw t at h) in
      let (r, p, same) = project_existing_iff existing o e in
      let (target, signed) =
        append-eq-nil (target_violations event existing (pending_of o)) _ (ok-injective k) in
      let (by, time) = signature-nil event signed in
      elim (Option-cases r.pending_approval) [
        | inl n ↦ absurd (unfold target_violations in ground (arith, same ∙ n))
        | inr (c, n) ↦ record {
          r = r;
          pending = c;
          projects = p;
          is_pending = n;
          same_decision = when-nil _ _ (unfold target_violations in rw (same ∙ n) at target);
          approver = by;
          time = time;
        }
      ]

  empty-resolution :
      (is_approval_resolved event.type ≡ true → AnswersPending event existing)
      → resolved_violations event existing ≡ ok []
  unfolding resolved_violations
  empty-resolution f = elim (Bool-cases (is_approval_resolved event.type)) [
    | inr t ↦ rw t
    | inl t ↦
        let a = f t in
        let (o, e, same) = existing-projected existing a.r a.projects in
        rw (t, e, same, a.is_pending)
          (unfold target_violations signature_violations in
            rw (a.same_decision, a.approver, a.time))
  ]

  completion-empty :
      is_summary event.type ≡ true
      → summary_violations event existing ≡ ok []
      → (event.requires_approval ≡ false)
        × (is_not_required event.approval.status ≡ true)
        × NonePending existing
  unfolding summary_violations
  completion-empty t h =
      let (o, e, k) = >>=-eq-ok (project_existing_run_status existing) _ (rw t at h) in
      let (r, p, same) = project_existing_iff existing o e in
      let (a, b, c) =
        when-nil₃ event.requires_approval (is_not_required event.approval.status)
          (is_some (pending_of o)) _ _ _ (ok-injective k) in
      (a, b, record { r = r; projects = p; is_clear = ground arith })

  empty-completion :
      (is_summary event.type ≡ true
        → (event.requires_approval ≡ false)
          × (is_not_required event.approval.status ≡ true)
          × NonePending existing)
      → summary_violations event existing ≡ ok []
  unfolding summary_violations
  empty-completion f = elim (Bool-cases (is_summary event.type)) [
    | inr t ↦ rw t
    | inl t ↦
        let (a, b, c) = f t in
        let (o, e, same) = existing-projected existing c.r c.projects in
        rw (t, e, a, b, same, c.is_clear)
  ]

  -- The rules admit an event exactly if the last event did not end the run, a request asks for
  -- approval, a resolution answers the pending approval of the run, a summary leaves none open,
  -- and a risky action has evidence. Otherwise they raise. Nothing is asked of the approval of any
  -- other event that is flagged as requiring one, nor of the status of a resolution.
  pub accepted-iff_IsAdmissible :
      (validate_event_business_rules event existing ≡ ok tt) ↔ IsAdmissible event existing
  unfolding requested_violations risk_violations
  accepted-iff_IsAdmissible = (
    λ h.
        let a = accepted-AllEmpty event existing h in
        record {
          open_run = (terminal_iff event existing).0 a.terminal;
          request = λ t. ground (arith, a.requested);
          resolution = λ t. resolution-empty t a.resolved;
          completion = λ t. completion-empty t a.completed;
          evidence = λ t r. ground (arith, a.risk);
        },
    λ i. AllEmpty-accepted event existing (record {
      terminal = (terminal_iff event existing).1 i.open_run;
      requested = ground (arith, i.request);
      resolved = empty-resolution i.resolution;
      completed = empty-completion i.completion;
      risk = ground (arith, i.evidence);
    }),
  )
