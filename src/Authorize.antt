-- ===== src/Authorize.antt =====
-- services/authorize_action_service.py: the decision on an action by the user's rules. What was
-- loaded from the rule file, what the expressions of the rules evaluate to, and SHA-256 with JSON
-- are arguments.
pub mod Rules
pub mod Repository
pub mod Strictest
pub mod WellFormed
use Prim.Native.String.{◌++◌}
use night_ledger.Prelude.{
  ℕ, String, Bool, true, false, not, ◌&&◌, Option, none, some, List, [], ◌∷◌, map, any, ltb, str_eq,
  if◌then◌else◌, is_empty,
}
use night_ledger.Prelude.Dict.{Dict, lookup}
use night_ledger.Prelude.Text.{is_blank, first_chars}
use night_ledger.Errors.{Result, ok, raise, policy_catalog_version_mismatch, ◌>>=◌, ◌>>◌}

pub data AuthorizeActionState : Type 0 where
  allowed requires_approval denied : AuthorizeActionState

pub data RuleAction : Type 0 where
  allow require_approval deny : RuleAction

-- A value of a context beyond the fields that are declared; a value of another kind by its text.
pub data Extra : Type 0 where
  null : Extra
  text : String → Extra
  other : String → Extra

-- `AuthorizeActionRequest`, as pydantic leaves it: the intent's action and the context's fields,
-- the number as its text.
pub record AuthorizeActionRequest : Type 0 where
  pub action : String
  pub user_id : String
  pub amount : String
  pub currency : String
  pub transport_decision_hint : Option AuthorizeActionState
  pub policy_catalog_version : Option String
  pub model_extra : Dict Extra

pub record RunFacts : Type 0 where
  pub event_count : ℕ
  pub has_pending_approval : Bool

pub record RuleDefinition : Type 0 where
  pub id : String
  pub type : String
  pub applies_to : List String
  pub when : String
  pub action : RuleAction
  pub reason : String

pub record LoadedRules : Type 0 where
  pub rules_by_user : Dict (List RuleDefinition)
  pub source_path : String
  pub ruleset_hash : String
  pub catalog_version : String

pub record Decision : Type 0 where
  pub decision_id : String
  pub state : AuthorizeActionState
  pub reason_code : String
  pub matched_rule_ids : List String
  pub matched_reasons : List String
  pub policy_catalog_version : String

-- `_action_priority`
unfoldable pub action_priority : RuleAction → ℕ
action_priority deny = 3
action_priority require_approval = 2
action_priority allow = 1

-- `_decision_state_for_action`
unfoldable pub decision_state_for_action : RuleAction → AuthorizeActionState
decision_state_for_action deny = denied
decision_state_for_action require_approval = requires_approval
decision_state_for_action allow = allowed

-- `_reason_code_for_rule_action`
unfoldable pub reason_code_for_rule_action : RuleAction → String
reason_code_for_rule_action deny = "RULE_DENY"
reason_code_for_rule_action require_approval = "RULE_REQUIRE_APPROVAL"
reason_code_for_rule_action allow = "RULE_ALLOW"

-- The loop of `_winner_rule`: among equal priorities, the first.
unfoldable pub better_of : RuleDefinition → List RuleDefinition → RuleDefinition
unfolding action_priority
better_of best [] = best
better_of best (rule ∷ rules) =
    let kept = better_of best rules in
    let replaced = better_of rule rules in
    if ltb (action_priority best.action) (action_priority rule.action) then replaced else kept

-- `state` and `reason_code`
unfoldable pub verdict_of : List RuleDefinition → AuthorizeActionState × String
unfolding better_of decision_state_for_action reason_code_for_rule_action
verdict_of [] = (allowed, "POLICY_ALLOW_NO_MATCH")
verdict_of (rule ∷ rules) =
    let winner = better_of rule rules in
    (decision_state_for_action winner.action, reason_code_for_rule_action winner.action)

-- `payload.intent.action in rule.applies_to`
abbrev pub applies : String → RuleDefinition → Bool
applies action rule = any (λ a. str_eq a action) rule.applies_to

abbrev pub rules_or_none : Option (List RuleDefinition) → List RuleDefinition
rules_or_none none = []
rules_or_none (some rules) = rules

-- `_build_deterministic_decision_id`, with the fingerprint of the request.
abbrev pub Fingerprint : Type 0
Fingerprint = AuthorizeActionRequest → String

unfoldable pub build_deterministic_decision_id : Fingerprint → AuthorizeActionRequest → String
build_deterministic_decision_id fingerprint request = "dec_" ++ first_chars 16 (fingerprint request)

abbrev pub check_version : Option String → String → Result (Unit {0})
check_version none actual = ok tt
check_version (some expected) actual =
    if not (is_blank expected) && not (str_eq expected actual)
    then raise (policy_catalog_version_mismatch expected actual)
    else ok tt

-- What the expressions of the rules evaluate to: `RuleEvaluator.evaluate`.
abbrev pub Evaluator : Type 0
Evaluator = RuleDefinition → AuthorizeActionRequest → RunFacts → Result Bool

module _ (evaluate : Evaluator) (request : AuthorizeActionRequest) (facts : RunFacts) where
  -- The loop over the user's rules: those that apply to the action and hold.
  unfoldable pub matched_rules : List RuleDefinition → Result (List RuleDefinition)
  unfolding any
  matched_rules [] = ok []
  matched_rules (rule ∷ rules) =
      let rest = matched_rules rules in
      if not (applies request.action rule)
      then rest
      else (evaluate rule request facts >>= λ outcome.
          rest >>= λ matched. ok (if outcome then rule ∷ matched else matched))

  abbrev pub decision_on : Fingerprint → String → List RuleDefinition → Decision
  unfolding verdict_of build_deterministic_decision_id
  decision_on fingerprint version matched = record {
    decision_id = build_deterministic_decision_id fingerprint request;
    state = (verdict_of matched).0;
    reason_code = (verdict_of matched).1;
    matched_rule_ids = map (λ (r : RuleDefinition). r.id) matched;
    matched_reasons = map (λ (r : RuleDefinition). r.reason) matched;
    policy_catalog_version = version;
  }

  unfoldable pub evaluate_authorize_action : Fingerprint → Result LoadedRules → Result Decision
  unfolding matched_rules verdict_of build_deterministic_decision_id
  evaluate_authorize_action fingerprint load = do
    loaded ← load
    check_version request.policy_catalog_version loaded.catalog_version
    matched ← matched_rules (rules_or_none (lookup request.user_id loaded.rules_by_user))
    ok (decision_on fingerprint loaded.catalog_version matched)
