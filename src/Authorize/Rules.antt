-- ===== src/Authorize/Rules.antt =====
-- services/authorize_action_service.py: the rules in a parsed rule file. YAML's values are seen as far
-- as the code looks into them: each level is an object, a list, or something else.
use Prim.Native.String.{◌++◌}
use night_ledger.Prelude.{
  ℕ, zero, suc, ◌+◌, ◌/◌, ◌%◌, ltb, String, Option, none, some, List, [], ◌∷◌, str_eq,
  if◌then◌else◌,
}
use night_ledger.Prelude.Time.{digit}
use night_ledger.Prelude.Dict.{Dict, lookup, insert}
use night_ledger.Prelude.Text.{strip, is_blank}
use night_ledger.Errors.{Result, ok, raise, rule_configuration, uncaught, ◌>>=◌}
use night_ledger.Authorize.{RuleAction, allow, require_approval, deny, RuleDefinition}

-- An element of `applies_to`.
pub data Leaf : Type 0 where
  text : String → Leaf
  other : Leaf

-- The value of a rule's key; a value of another kind by its text in a message.
pub data Field : Type 0 where
  text : String → Field
  sequence : List Leaf → Field
  mapping : Field
  scalar : String → Field

pub data Node (A : Type 0) : Type 0 where
  object : A → Node A
  other : Node A

-- The value of `rules`, of a user, of `users` and of the file.
abbrev pub RuleNode : Type 0
RuleNode = Node (Dict Field)

abbrev pub UserNode : Type 0
UserNode = Node (Node (List RuleNode))

-- A key of `users`: a text, or a value of another kind.
abbrev pub UsersNode : Type 0
UsersNode = Node (List (Option String × UserNode))

abbrev pub RootNode : Type 0
RootNode = Node UsersNode

abbrev pub wrong {ℓ} : {A : Type ℓ} → String → Result A
wrong message = raise (rule_configuration message)

-- `str(value)` of a key that is not there is `None`.
abbrev pub or_none : Option Field → Field
or_none none = scalar "None"
or_none (some field) = field

abbrev pub field : Dict Field → String → Field
field rule key = or_none (lookup key rule)

-- A text that is not blank, without the white space at its ends.
abbrev pub nonblank_text : String → Field → Result String
nonblank_text message (text s) = if is_blank s then wrong message else ok s
nonblank_text message _ = wrong message

abbrev pub action_name : String → Leaf → Result String
action_name rule_id (text s) =
    if is_blank s
    then wrong ("Rule '" ++ rule_id ++ "' contains invalid applies_to action value")
    else ok (strip s)
action_name rule_id other =
    wrong ("Rule '" ++ rule_id ++ "' contains invalid applies_to action value")

unfoldable pub action_names : String → List Leaf → Result (List String)
action_names rule_id [] = ok []
action_names rule_id (leaf ∷ leaves) =
    action_name rule_id leaf >>= λ name. action_names rule_id leaves >>= λ names. ok (name ∷ names)

abbrev pub applies_to_values : String → Field → Result (List String)
applies_to_values rule_id (sequence (leaf ∷ leaves)) = action_names rule_id (leaf ∷ leaves)
applies_to_values rule_id _ =
    wrong ("Rule '" ++ rule_id ++ "' requires non-empty list 'applies_to'")

abbrev pub invalid_action {ℓ} : {A : Type ℓ} → String → String → Result A
invalid_action rule_id shown = wrong (
    "Rule '" ++ rule_id ++ "' has invalid action '" ++ shown
    ++ "', expected allow|require_approval|deny")

-- `action not in {...}`: a list or an object has no hash.
unfoldable pub action_of : String → Field → Result RuleAction
action_of rule_id (text s) =
    if str_eq s "allow"
    then ok allow
    else if str_eq s "require_approval"
    then ok require_approval
    else if str_eq s "deny"
    then ok deny
    else invalid_action rule_id s
action_of rule_id (sequence leaves) = raise (uncaught "TypeError")
action_of rule_id mapping = raise (uncaught "TypeError")
action_of rule_id (scalar shown) = invalid_action rule_id shown

-- `str` of a natural number. A division by ten is less, so there are digits enough.
unfoldable pub decimal_from : ℕ → ℕ → String
unfolding digit
decimal_from zero n = ""
decimal_from (suc digits) n =
    let front = decimal_from digits (n / 10) in
    if ltb n 10 then digit n else front ++ digit (n % 10)

abbrev pub decimal : ℕ → String
decimal n = decimal_from (suc n) n

-- `_parse_rule_definition`; `at` is `User '...' rule at index ...`
unfoldable pub parse_rule_definition : String → Dict Field → Result RuleDefinition
unfolding action_names action_of
parse_rule_definition at rule = do
  rule_id ← nonblank_text (at ++ " is missing non-empty 'id'") (field rule "id")
  rule_type ←
      nonblank_text ("Rule '" ++ rule_id ++ "' is missing non-empty 'type'") (field rule "type")
  applies_to ← applies_to_values rule_id (field rule "applies_to")
  when ← nonblank_text ("Rule '" ++ rule_id ++ "' is missing non-empty 'when'") (field rule "when")
  action ← action_of rule_id (field rule "action")
  reason ←
      nonblank_text ("Rule '" ++ rule_id ++ "' is missing non-empty 'reason'") (field rule "reason")
  ok (record {
    id = strip rule_id;
    type = strip rule_type;
    applies_to = applies_to;
    when = strip when;
    action = action;
    reason = strip reason;
  })

abbrev pub parse_rule : String → RuleNode → Result RuleDefinition
unfolding parse_rule_definition
parse_rule at other = wrong (at ++ " must be an object")
parse_rule at (object rule) = parse_rule_definition at rule

-- The loops of `_parse_rules_catalog`, over the rules of a user and over the users.
unfoldable pub parse_rules : String → ℕ → List RuleNode → Result (List RuleDefinition)
unfolding parse_rule_definition
parse_rules user_id index [] = ok []
parse_rules user_id index (rule ∷ rules) =
    parse_rule ("User '" ++ user_id ++ "' rule at index " ++ decimal index) rule >>= λ parsed.
    parse_rules user_id (index + 1) rules >>= λ more. ok (parsed ∷ more)

abbrev pub rules_of_user : String → UserNode → Result (List RuleDefinition)
unfolding parse_rules
rules_of_user user_id other = wrong ("User '" ++ user_id ++ "' config must be an object")
rules_of_user user_id (object other) = wrong ("User '" ++ user_id ++ "' rules must be a list")
rules_of_user user_id (object (object rules)) = parse_rules user_id 0 rules

abbrev pub user_key : Option String → Result String
user_key none = wrong "Rule file contains invalid user id"
user_key (some user_id) =
    if is_blank user_id then wrong "Rule file contains invalid user id" else ok user_id

unfoldable pub parse_users :
    Dict (List RuleDefinition)
    → List (Option String × UserNode)
    → Result (Dict (List RuleDefinition))
unfolding parse_rules
parse_users parsed [] = ok parsed
parse_users parsed ((key, user) ∷ users) = user_key key >>= λ user_id.
    rules_of_user user_id user >>= λ rules. parse_users (insert (strip user_id) rules parsed) users

unfoldable pub parse_rules_catalog : RootNode → Result (Dict (List RuleDefinition))
unfolding parse_users
parse_rules_catalog other = wrong "Rule file root must be an object"
parse_rules_catalog (object other) = wrong "Rule file must define object key 'users'"
parse_rules_catalog (object (object users)) = parse_users [] users
