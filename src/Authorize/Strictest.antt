-- ===== src/Authorize/Strictest.antt =====
-- authorize_action_service.py: the decision is that of the strictest rule that holds.
use night_ledger.Prelude.{
  Bool, true, false, ◌&&◌, ◌≡◌, refl, ap, sym, ◌∙◌, List, [], ◌∷◌, map, any, filter, arith, ltb,
  if◌then◌else◌, Bool-cases, inl, inr,
}
use night_ledger.Prelude.Dict.{lookup}
use night_ledger.Errors.{Result, ok, raise, >>=-eq-ok, ok-injective}
use night_ledger.Authorize.{
  AuthorizeActionState, allowed, requires_approval, denied, RuleAction, allow, require_approval,
  deny, AuthorizeActionRequest, RunFacts, RuleDefinition, LoadedRules, Decision, action_priority,
  decision_state_for_action, better_of, verdict_of, applies, rules_or_none, Fingerprint,
  check_version, Evaluator, matched_rules, evaluate_authorize_action,
}

abbrev is_deny : RuleDefinition → Bool
is_deny rule = elim rule.action [ deny ↦ true | _ ↦ false ]

abbrev is_require_approval : RuleDefinition → Bool
is_require_approval rule = elim rule.action [ require_approval ↦ true | _ ↦ false ]

-- The strictest of the rules, in whatever order they stand.
unfoldable pub strictest : List RuleDefinition → AuthorizeActionState
strictest rules =
    if any is_deny rules
    then denied
    else if any is_require_approval rules
    then requires_approval
    else allowed

unfoldable stricter : RuleAction → AuthorizeActionState → AuthorizeActionState
stricter deny later = denied
stricter require_approval denied = denied
stricter require_approval _ = requires_approval
stricter allow later = later

strictest-cons :
    (rule : RuleDefinition) (rules : List RuleDefinition)
    → strictest (rule ∷ rules) ≡ stricter rule.action (strictest rules)
unfolding strictest any stricter
strictest-cons rule rules = ground arith

-- The one of higher priority decides for both.
stricter-priority :
    (held next : RuleAction) (later : AuthorizeActionState)
    → (if ltb (action_priority held) (action_priority next)
        then stricter next later
        else stricter held later)
      ≡ stricter held (stricter next later)
unfolding action_priority stricter
stricter-priority held next later = ground arith

better_of-strictest :
    (best : RuleDefinition) (rules : List RuleDefinition)
    → decision_state_for_action (better_of best rules).action
      ≡ stricter best.action (strictest rules)
better_of-strictest best [] =
    unfold better_of decision_state_for_action strictest any stricter in ground arith
better_of-strictest best (rule ∷ rules) =
    chosen (ltb (action_priority best.action) (action_priority rule.action)) refl
      (better_of-strictest rule rules) (better_of-strictest best rules)
  where
    chosen :
        (b : Bool)
        → ltb (action_priority best.action) (action_priority rule.action) ≡ b
        → decision_state_for_action (better_of rule rules).action
          ≡ stricter rule.action (strictest rules)
        → decision_state_for_action (better_of best rules).action
          ≡ stricter best.action (strictest rules)
        → decision_state_for_action (better_of best (rule ∷ rules)).action
          ≡ stricter best.action (strictest (rule ∷ rules))
    chosen true e replaced kept =
        rw
          (
            strictest-cons rule rules,
            ← stricter-priority best.action rule.action (strictest rules),
            e,
          )
          (unfold better_of in rw e replaced)
    chosen false e replaced kept =
        rw
          (
            strictest-cons rule rules,
            ← stricter-priority best.action rule.action (strictest rules),
            e,
          )
          (unfold better_of in rw e kept)

pub verdict-strictest : (rules : List RuleDefinition) → (verdict_of rules).0 ≡ strictest rules
verdict-strictest [] = unfold verdict_of strictest any in refl
verdict-strictest (rule ∷ rules) =
    unfold verdict_of in better_of-strictest rule rules ∙ sym (strictest-cons rule rules)

module _ (evaluate : Evaluator) (request : AuthorizeActionRequest) (facts : RunFacts) where
  -- A rule that applies to the action and whose expression is true.
  unfoldable pub holds : RuleDefinition → Bool
  holds rule =
      applies request.action rule
      && elim (evaluate rule request facts) [ ok b ↦ b | raise e ↦ false ]

  matched_rules-holds :
      (rules matched : List RuleDefinition)
      → matched_rules evaluate request facts rules ≡ ok matched
      → matched ≡ filter holds rules
  unfolding matched_rules filter holds
  matched_rules-holds [] matched h = sym (ok-injective h)
  matched_rules-holds (rule ∷ rules) matched h = elim (Bool-cases (applies request.action rule)) [
    | inr e ↦ rw e (matched_rules-holds rules matched (rw e at h))
    | inl e ↦
        let (outcome, evaluated, h1) =
          >>=-eq-ok (evaluate rule request facts) (λ _. _) (rw e at h) in
        let (rest, found, h2) =
          >>=-eq-ok (matched_rules evaluate request facts rules) (λ _. _) h1 in
        rw (e, evaluated, ← matched_rules-holds rules rest found) (sym (ok-injective h2))
  ]

  -- A decision is that of the strictest of the user's rules that apply to the action and are true,
  -- and names these rules and no others, in their order; without such a rule the action is allowed.
  pub decision-strictest :
      (fingerprint : Fingerprint) (load : Result LoadedRules) (loaded : LoadedRules) (d : Decision)
      → load ≡ ok loaded
      → evaluate_authorize_action evaluate request facts fingerprint load ≡ ok d
      → (d.state
          ≡ strictest (filter holds (rules_or_none (lookup request.user_id loaded.rules_by_user))))
        × (d.matched_rule_ids
            ≡ map
                (λ (r : RuleDefinition). r.id)
                (filter holds (rules_or_none (lookup request.user_id loaded.rules_by_user))))
  unfolding evaluate_authorize_action
  decision-strictest fingerprint load loaded d found h =
      let (l, read, h1) = >>=-eq-ok load (λ _. _) h in
      let (u, current, h2) =
        >>=-eq-ok (check_version request.policy_catalog_version l.catalog_version) (λ _. _) h1 in
      let (matched, run, h3) =
        >>=-eq-ok
          (matched_rules evaluate request facts
            (rules_or_none (lookup request.user_id l.rules_by_user)))
          (λ _. _) h2 in
      let same : l ≡ loaded = ok-injective (sym read ∙ found) in
      let only : matched
          ≡ filter holds (rules_or_none (lookup request.user_id loaded.rules_by_user)) =
        matched_rules-holds _ matched run
        ∙ ap
            (λ (x : LoadedRules).
              filter holds (rules_or_none (lookup request.user_id x.rules_by_user)))
            same in
      (
        sym (ap (λ (x : Decision). x.state) (ok-injective h3))
            ∙ verdict-strictest matched
            ∙ ap strictest only,
        sym (ap (λ (x : Decision). x.matched_rule_ids) (ok-injective h3))
            ∙ ap (map (λ (r : RuleDefinition). r.id)) only,
      )
