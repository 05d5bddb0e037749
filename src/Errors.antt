-- ===== src/Errors.antt =====
-- services/errors.py: the exceptions as values, and the result of code that may raise one.
use night_ledger.Prelude.{String, Bool, true, false, List, ◌≡◌, refl, ◌⊎◌, inl, inr}

pub record ValidationDetail : Type 0 where
  pub path : String
  pub message : String
  pub type : String
  pub code : String

pub record BusinessRuleViolationDetail : Type 0 where
  pub path : String
  pub message : String
  pub type : String
  pub code : String
  pub rule_id : String

pub record InconsistentRunState : Type 0 where
  pub detail_path : String
  pub detail_message : String
  pub detail_code : String
  pub detail_type : String

-- `uncaught` is an exception of Python itself, by the name of its class.
pub data Error : Type 0 where
  schema_validation : List ValidationDetail → Error
  business_rule_validation : List BusinessRuleViolationDetail → Error
  storage_write storage_read : String → Error
  duplicate_event : (event_id run_id : String) → Error
  run_not_found : String → Error
  inconsistent_run_state : InconsistentRunState → Error
  approval_not_found : (event_id detail_path : String) → Error
  ambiguous_event_id no_pending_approval : String → Error
  duplicate_approval : (event_id detail_path reason : String) → Error
  execution_token_missing execution_token_invalid execution_token_expired : Error
  execution_token_replayed execution_payload_mismatch : Error
  execution_action_mismatch : (expected_action token_action : String) → Error
  execution_decision_not_approved : String → Error
  execution_token_misconfigured : String → Error
  rule_configuration : String → Error
  rule_expression : (rule_id expression message : String) → Error
  rule_input : (path message : String) → Error
  policy_catalog_version_mismatch : (expected actual : String) → Error
  uncaught : String → Error

-- What a call comes back with.
pub data Result {ℓ} (Value : Type ℓ) : Type ℓ where
  ok : Value → Result Value
  raise : Error → Result Value

module _ {ℓ κ} {First : Type ℓ} {Second : Type κ} where
  infixl 5 ◌>>=◌
  abbrev pub ◌>>=◌ : Result First → (First → Result Second) → Result Second
  ◌>>=◌ (ok value) next = next value
  ◌>>=◌ (raise error) next = raise error

  -- A bind that returned had a first part that returned.
  pub >>=-eq-ok :
      (first : Result First) (next : First → Result Second) {last : Second}
      → (first >>= next) ≡ ok last
      → (value : First) × (first ≡ ok value) × (next value ≡ ok last)
  >>=-eq-ok (ok value) next returned = (value, refl, returned)
  >>=-eq-ok (raise error) next returned = cc

-- A check that returns nothing, before the rest.
infixl 5 ◌>>◌
abbrev pub ◌>>◌ {ℓ} : {Value : Type ℓ} → Result (Unit {0}) → Result Value → Result Value
◌>>◌ check rest = check >>= λ passed. rest

abbrev pub is_ok {ℓ} : {A : Type ℓ} → Result A → Bool
is_ok (ok a) = true
is_ok (raise e) = false

pub Result-cases :
    {A : Type 0} (r : Result A) → ((a : A) × (r ≡ ok a)) ⊎ ((e : Error) × (r ≡ raise e))
Result-cases (ok a) = inl (a, refl)
Result-cases (raise e) = inr (e, refl)

-- The exception is raised with `detail_type="state_conflict"`.
abbrev pub conflict {ℓ} : {A : Type ℓ} → (path message code : String) → Result A
conflict path message code = raise (
    inconsistent_run_state (record {
      detail_path = path;
      detail_message = message;
      detail_code = code;
      detail_type = "state_conflict";
    }))

pub ok-injective {ℓ} : {A : Type ℓ} {a b : A} → ok a ≡ ok b → a ≡ b
ok-injective h = cc

pub raise-injective {ℓ} :
    {A : Type ℓ} {x y : Error} → ◌≡◌ {A = Result A} (raise x) (raise y) → x ≡ y
raise-injective h = cc
