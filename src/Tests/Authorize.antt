-- ===== src/Tests/Authorize.antt =====
-- The decision on an action at concrete rules.
use night_ledger.Prelude.{
  String, Bool, true, false, ◌≡◌, refl, Option, none, some, List, [], ◌∷◌, map, filter, is_some,
  str_eq, if◌then◌else◌,
}
use night_ledger.Prelude.Dict.{Dict, lookup}
use night_ledger.Prelude.Time.{demo_time}
use night_ledger.Errors.{ok, raise, uncaught}
use night_ledger.EventStore.Memory
use night_ledger.EventStore.Memory.{memory_store}
use night_ledger.Authorize.{
  AuthorizeActionRequest, RunFacts, RuleDefinition, LoadedRules, Decision, Evaluator, Fingerprint,
  Extra, requires_approval, allow, require_approval, rules_or_none, evaluate_authorize_action,
}
use night_ledger.Authorize.Rules.{Field, Leaf, Node, RootNode, action_of, parse_rules_catalog}
use night_ledger.Authorize.Strictest.{strictest, holds, decision-strictest}
use night_ledger.Authorize.WellFormed.{AreWellFormed, parse_rules_catalog-AreWellFormed}
use night_ledger.Gate.Authorize.{AuthorizeCall, build_run_facts, is_allowed, authorize_action}
use night_ledger.Gate.Allowed.{authorize_action-token}
use night_ledger.Tests.{id_digest, as_given}
use night_ledger.Tests.Gate.{test_digest, waiting}
use night_ledger.Tests.Tokens.{test_env, test_codec}

abbrev test_request : AuthorizeActionRequest
test_request = record {
  action = "purchase.create";
  user_id = "user_1";
  amount = "10.0";
  currency = "EUR";
  transport_decision_hint = none;
  policy_catalog_version = none;
  model_extra = ("run_id", Extra.text " run_1 ") ∷ [];
}

-- A rule file with one user and two rules.
abbrev rule_entries : String → String → String → Dict Field
rule_entries id when action =
    ("id", Field.text id)
    ∷ ("type", Field.text "guard")
    ∷ ("applies_to", Field.sequence (Leaf.text "purchase.create" ∷ []))
    ∷ ("when", Field.text when)
    ∷ ("action", Field.text action)
    ∷ ("reason", Field.text "a reason")
    ∷ []

abbrev test_root : RootNode
test_root = Node.object (
    Node.object (
      (
        some "user_1",
        Node.object (
            Node.object (
              Node.object (rule_entries "r1" "True" "allow")
              ∷ Node.object (rule_entries "r2" "run.has_pending_approval" "require_approval")
              ∷ [])),
      )
      ∷ []))

abbrev test_rule : String → String → RuleDefinition
test_rule id when = record {
  id = id;
  type = "guard";
  applies_to = "purchase.create" ∷ [];
  when = when;
  action = allow;
  reason = "a reason";
}

abbrev test_catalog : Dict (List RuleDefinition)
test_catalog =
    (
      "user_1",
      test_rule "r1" "True"
          ∷ record (test_rule "r2" "run.has_pending_approval") { action = require_approval }
          ∷ [],
    )
    ∷ []

test_parsed : parse_rules_catalog test_root ≡ ok test_catalog
unfolding parse_rules_catalog night_ledger.Prelude.Text.is_blank lookup
    night_ledger.Prelude.Dict.insert
test_parsed = refl

-- A list for an action is an exception of Python.
list_action : action_of "r1" (Field.sequence []) ≡ raise (uncaught "TypeError")
unfolding action_of
list_action = refl

parse_rules_catalog-AreWellFormed_example : AreWellFormed test_catalog
parse_rules_catalog-AreWellFormed_example =
    parse_rules_catalog-AreWellFormed test_root test_catalog test_parsed

-- The two expressions.
abbrev test_evaluate : Evaluator
test_evaluate rule request facts =
    if str_eq rule.when "run.has_pending_approval" then ok facts.has_pending_approval else ok true

abbrev test_loaded : LoadedRules
test_loaded = record {
  rules_by_user = test_catalog;
  source_path = "rules.yaml";
  ruleset_hash = "sha256:00";
  catalog_version = "pol_00";
}

abbrev test_fingerprint : Fingerprint
test_fingerprint request = "0123456789abcdef01"

abbrev test_facts : RunFacts
test_facts = record { event_count = 2; has_pending_approval = true }

abbrev test_decision : Decision
test_decision = record {
  decision_id = "dec_0123456789abcdef";
  state = requires_approval;
  reason_code = "RULE_REQUIRE_APPROVAL";
  matched_rule_ids = "r1" ∷ "r2" ∷ [];
  matched_reasons = "a reason" ∷ "a reason" ∷ [];
  policy_catalog_version = "pol_00";
}

test_decided :
    evaluate_authorize_action test_evaluate test_request test_facts test_fingerprint
      (ok test_loaded)
    ≡ ok test_decision
unfolding evaluate_authorize_action lookup night_ledger.Prelude.Text.first_chars
test_decided = refl

decision-strictest_example :
    (requires_approval
      ≡ strictest (
          filter
            (holds test_evaluate test_request test_facts)
            (rules_or_none (lookup "user_1" test_catalog))))
    × ("r1" ∷ "r2" ∷ []
        ≡ map
            (λ (r : RuleDefinition). r.id)
            (filter
              (holds test_evaluate test_request test_facts)
              (rules_or_none (lookup "user_1" test_catalog))))
decision-strictest_example =
    decision-strictest test_evaluate test_request test_facts test_fingerprint (ok test_loaded)
      test_loaded test_decision refl test_decided

abbrev test_call : AuthorizeCall
test_call = record {
  decided = record { now = demo_time; uuid16 = "b1" };
  issued_at = demo_time;
  uuid = "0e";
  minted = record { now = demo_time; uuid16 = "b2" };
}

test_replied :
    (authorize_action
      (memory_store id_digest)
      as_given
      test_codec
      test_env
      test_digest
      test_call
      test_request
      test_evaluate
      test_fingerprint
      (ok test_loaded)
      waiting).1
    ≡ ok (record { decision = test_decision; token = none })
unfolding authorize_action evaluate_authorize_action night_ledger.Gate.append_runtime_receipt
    night_ledger.Ingest.validate_event_payload night_ledger.Prelude.Text.is_blank
    night_ledger.Prelude.Text.strip night_ledger.Prelude.Text.first_chars filter Memory.append
    Memory.contains Memory.append_all Memory.commit Memory.to_stored_event Memory.new_record
    Memory.later_timestamp Memory.list_by_run_id Memory.records Memory.key_leb
    night_ledger.EventStore.build_event_hash night_ledger.Prelude.Sort.sort_by
    night_ledger.Prelude.get_last? night_ledger.Prelude.any lookup night_ledger.Prelude.Dict.insert
    night_ledger.Prelude.text_leb night_ledger.RunStatus.project_run_status
    night_ledger.RunStatus.step night_ledger.RunStatus.to_terminal_status
    night_ledger.RunStatus.advance night_ledger.RunStatus.is_pending_signal
    night_ledger.RunStatus.is_resolution_signal night_ledger.RunStatus.observe
    night_ledger.RunStatus.request night_ledger.RunStatus.terminal_step_status
test_replied = refl

authorize_action-token_example :
    (facts : RunFacts) × (build_run_facts (memory_store id_digest) test_request waiting ≡ ok facts)
    × (false
        ≡ is_allowed (
            strictest (
              filter
                (holds test_evaluate test_request facts)
                (rules_or_none (lookup "user_1" test_catalog)))))
authorize_action-token_example =
    authorize_action-token (memory_store id_digest) as_given test_codec test_env test_digest
      test_call test_request test_evaluate test_fingerprint (ok test_loaded) test_loaded waiting
      (record { decision = test_decision; token = none }) refl test_replied
