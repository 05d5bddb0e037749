-- ===== src/Authorize/WellFormed.antt =====
-- authorize_action_service.py: what a rule file that is read gives.
use night_ledger.Prelude.{
  ℕ, ◌+◌, String, false, ◌≡◌, refl, ap, sym, subst, ◌∙◌, Option, none, some, List, [], ◌∷◌, str_eq,
  is_empty, All, Bool-cases, inl, inr, arith,
}
use night_ledger.Prelude.Dict.{Dict, insert}
use night_ledger.Prelude.Text.{strip, is_blank}
use night_ledger.Prelude.Text.Blank.{is_blank-strip}
use night_ledger.Errors.{ok, >>=-eq-ok, ok-injective}
use night_ledger.Authorize.{RuleDefinition}
use night_ledger.Authorize.Rules.{
  Leaf, Field, Node, RuleNode, UserNode, RootNode, field, nonblank_text, action_name, action_names,
  applies_to_values, action_of, parse_rule_definition, parse_rule, parse_rules, rules_of_user,
  user_key, parse_users, parse_rules_catalog,
}

abbrev IsNamed : String → Type 0
IsNamed s = is_blank s ≡ false

-- A rule with a text for each of its parts, and with actions.
pub record IsWellFormed (rule : RuleDefinition) : Type 0 where
  pub id : is_blank rule.id ≡ false
  pub type : is_blank rule.type ≡ false
  pub when : is_blank rule.when ≡ false
  pub reason : is_blank rule.reason ≡ false
  pub some_action : is_empty rule.applies_to ≡ false
  pub actions : All (λ (a : String). is_blank a ≡ false) rule.applies_to

abbrev pub AreWellFormed : Dict (List RuleDefinition) → Type 0
AreWellFormed users =
    All
      (λ (user : String × List RuleDefinition). (is_blank user.0 ≡ false) × All IsWellFormed user.1)
      users

nonblank_text-IsNamed :
    (message : String) (value : Field) (s : String)
    → nonblank_text message value ≡ ok s
    → IsNamed (strip s)
nonblank_text-IsNamed message (Field.text t) s h = elim (Bool-cases (is_blank t)) [
  | inl e ↦ absurd (ground arith)
  | inr e ↦ is_blank-strip s ∙ ap is_blank (ok-injective (sym h ∙ rw e refl)) ∙ e
]
nonblank_text-IsNamed message (Field.sequence leaves) s h = cc
nonblank_text-IsNamed message Field.mapping s h = cc
nonblank_text-IsNamed message (Field.scalar shown) s h = cc

action_name-IsNamed :
    (rule_id : String) (leaf : Leaf) (name : String)
    → action_name rule_id leaf ≡ ok name
    → IsNamed name
action_name-IsNamed rule_id (Leaf.text t) name h = elim (Bool-cases (is_blank t)) [
  | inl e ↦ absurd (ground arith)
  | inr e ↦ ap is_blank (ok-injective (sym h ∙ rw e refl)) ∙ is_blank-strip t ∙ e
]
action_name-IsNamed rule_id Leaf.other name h = cc

action_names-AreNamed :
    (rule_id : String) (leaves : List Leaf) (names : List String)
    → action_names rule_id leaves ≡ ok names
    → All (λ (a : String). is_blank a ≡ false) names
unfolding action_names
action_names-AreNamed rule_id [] names h =
    subst (All (λ (a : String). is_blank a ≡ false)) (ok-injective h) tt
action_names-AreNamed rule_id (leaf ∷ leaves) names h =
    let (name, first, h1) = >>=-eq-ok (action_name rule_id leaf) (λ _. _) h in
    let (more, rest, h2) = >>=-eq-ok (action_names rule_id leaves) (λ _. _) h1 in
    subst (All (λ (a : String). is_blank a ≡ false)) (ok-injective h2)
      (action_name-IsNamed rule_id leaf name first, action_names-AreNamed rule_id leaves more rest)

applies_to-AreNamed :
    (rule_id : String) (value : Field) (names : List String)
    → applies_to_values rule_id value ≡ ok names
    → (is_empty names ≡ false) × All (λ (a : String). is_blank a ≡ false) names
unfolding action_names
applies_to-AreNamed rule_id (Field.sequence (leaf ∷ leaves)) names h =
    let (name, first, h1) = >>=-eq-ok (action_name rule_id leaf) (λ _. _) h in
    let (more, rest, h2) = >>=-eq-ok (action_names rule_id leaves) (λ _. _) h1 in
    (ap is_empty (sym (ok-injective h2)), action_names-AreNamed rule_id (leaf ∷ leaves) names h)
applies_to-AreNamed rule_id (Field.sequence []) names h = cc
applies_to-AreNamed rule_id (Field.text s) names h = cc
applies_to-AreNamed rule_id Field.mapping names h = cc
applies_to-AreNamed rule_id (Field.scalar shown) names h = cc

parse_rule-IsWellFormed :
    (at : String) (node : RuleNode) (rule : RuleDefinition)
    → parse_rule at node ≡ ok rule
    → IsWellFormed rule
unfolding parse_rule_definition
parse_rule-IsWellFormed at Node.other rule h = cc
parse_rule-IsWellFormed at (Node.object entries) rule h =
    let (rule_id, named, h1) = >>=-eq-ok (nonblank_text _ (field entries "id")) (λ _. _) h in
    let (rule_type, typed, h2) = >>=-eq-ok (nonblank_text _ (field entries "type")) (λ _. _) h1 in
    let (names, listed, h3) =
      >>=-eq-ok (applies_to_values rule_id (field entries "applies_to")) (λ _. _) h2 in
    let (when, tested, h4) = >>=-eq-ok (nonblank_text _ (field entries "when")) (λ _. _) h3 in
    let (action, decided, h5) =
      >>=-eq-ok (action_of rule_id (field entries "action")) (λ _. _) h4 in
    let (reason, explained, h6) =
      >>=-eq-ok (nonblank_text _ (field entries "reason")) (λ _. _) h5 in
    let (given, actions) = applies_to-AreNamed rule_id (field entries "applies_to") names listed in
    subst IsWellFormed (ok-injective h6) record {
      id = nonblank_text-IsNamed _ (field entries "id") rule_id named;
      type = nonblank_text-IsNamed _ (field entries "type") rule_type typed;
      when = nonblank_text-IsNamed _ (field entries "when") when tested;
      reason = nonblank_text-IsNamed _ (field entries "reason") reason explained;
      some_action = given;
      actions = actions;
    }

parse_rules-AreWellFormed :
    (user_id : String) (index : ℕ) (nodes : List RuleNode) (rules : List RuleDefinition)
    → parse_rules user_id index nodes ≡ ok rules
    → All IsWellFormed rules
unfolding parse_rules
parse_rules-AreWellFormed user_id index [] rules h = subst (All IsWellFormed) (ok-injective h) tt
parse_rules-AreWellFormed user_id index (node ∷ nodes) rules h =
    let (rule, first, h1) = >>=-eq-ok (parse_rule _ node) (λ _. _) h in
    let (more, rest, h2) = >>=-eq-ok (parse_rules user_id (index + 1) nodes) (λ _. _) h1 in
    subst (All IsWellFormed) (ok-injective h2) (
      parse_rule-IsWellFormed _ node rule first,
      parse_rules-AreWellFormed user_id (index + 1) nodes more rest,
    )

rules_of_user-AreWellFormed :
    (user_id : String) (user : UserNode) (rules : List RuleDefinition)
    → rules_of_user user_id user ≡ ok rules
    → All IsWellFormed rules
unfolding parse_rules
rules_of_user-AreWellFormed user_id Node.other rules h = cc
rules_of_user-AreWellFormed user_id (Node.object Node.other) rules h = cc
rules_of_user-AreWellFormed user_id (Node.object (Node.object nodes)) rules h =
    parse_rules-AreWellFormed user_id 0 nodes rules h

user_key-IsNamed :
    (key : Option String) (user_id : String) → user_key key ≡ ok user_id → IsNamed (strip user_id)
user_key-IsNamed none user_id h = cc
user_key-IsNamed (some k) user_id h = elim (Bool-cases (is_blank k)) [
  | inl e ↦ absurd (ground arith)
  | inr e ↦ is_blank-strip user_id ∙ ap is_blank (ok-injective (sym h ∙ rw e refl)) ∙ e
]

insert-AreWellFormed :
    (key : String) (rules : List RuleDefinition) (users : Dict (List RuleDefinition))
    → IsNamed key
    → All IsWellFormed rules
    → AreWellFormed users
    → AreWellFormed (insert key rules users)
unfolding insert
insert-AreWellFormed key rules [] named formed held = ((named, formed), tt)
insert-AreWellFormed key rules ((used, old) ∷ users) named formed held =
    elim (Bool-cases (str_eq used key)) [
      | inl e ↦ rw e ((held.0.0, formed), held.1)
      | inr e ↦ rw e (held.0, insert-AreWellFormed key rules users named formed held.1)
    ]

parse_users-AreWellFormed :
    (parsed : Dict (List RuleDefinition)) (users : List (Option String × UserNode))
    (catalog : Dict (List RuleDefinition))
    → AreWellFormed parsed
    → parse_users parsed users ≡ ok catalog
    → AreWellFormed catalog
unfolding parse_users
parse_users-AreWellFormed parsed [] catalog held h = subst AreWellFormed (ok-injective h) held
parse_users-AreWellFormed parsed ((key, user) ∷ users) catalog held h =
    let (user_id, named, h1) = >>=-eq-ok (user_key key) (λ _. _) h in
    let (rules, read, h2) = >>=-eq-ok (rules_of_user user_id user) (λ _. _) h1 in
    parse_users-AreWellFormed (insert (strip user_id) rules parsed) users catalog
      (insert-AreWellFormed (strip user_id) rules parsed (user_key-IsNamed key user_id named)
        (rules_of_user-AreWellFormed user_id user rules read) held)
      h2

-- A rule file that is read gives users whose names are not blank, with rules of which each has an
-- identifier, a type, an expression and a reason that are not blank, and at least one action, none
-- of them blank.
pub parse_rules_catalog-AreWellFormed :
    (root : RootNode) (catalog : Dict (List RuleDefinition))
    → parse_rules_catalog root ≡ ok catalog
    → AreWellFormed catalog
unfolding parse_rules_catalog
parse_rules_catalog-AreWellFormed Node.other catalog h = cc
parse_rules_catalog-AreWellFormed (Node.object Node.other) catalog h = cc
parse_rules_catalog-AreWellFormed (Node.object (Node.object users)) catalog h =
    parse_users-AreWellFormed [] users catalog tt h
