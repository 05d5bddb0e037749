-- ===== src/Gate/Execute.antt =====
-- controllers/events_controller.py: `POST /v1/executors/purchase.create`. The code reads the clock
-- for the verification, for the table of the used tokens, for the reply and for the receipt.
use Prim.Native.Char.{code}
use Prim.Native.String.{◌++◌}
use night_ledger.Prelude.{
  ℕ, ◌+◌, String, Bool, true, false, not, ◌&&◌, Option, none, some, leb, ◌==◌, str_eq,
  if◌then◌else◌,
}
use night_ledger.Prelude.Int.{ℤ, pos, negsuc}
use night_ledger.Prelude.Text.{strip, is_blank, drop_chars}
use night_ledger.Prelude.Time.{Datetime, format_timestamp}
use night_ledger.Schema.{EventPayload, StoredEvent, error, action}
use night_ledger.Errors.{
  Result, ok, raise, Error, execution_token_missing, execution_token_invalid,
  execution_token_expired, execution_token_replayed, execution_action_mismatch,
  execution_payload_mismatch,
}
use night_ledger.Exec.{Exec, lift, pure, ◌>>=◌}
use night_ledger.EventStore.{EventStore}
use night_ledger.Ingest.{Validated}
use night_ledger.Replay.{Clock, UsedTokens, consume_once}
use night_ledger.Tokens.{Codec, Environment}
use night_ledger.Tokens.Verify.{Claims, Expected, verify_execution_token}
use night_ledger.Gate.{Call, Receipt, append_runtime_receipt}

-- What the handlers share: an event store, and the table of the used tokens.
pub record World (S : Type 0) : Type 0 where
  pub events : S
  pub used : UsedTokens

-- `PurchaseCreateExecutionRequest`, as pydantic leaves it; the number as its text.
pub record Purchase : Type 0 where
  pub run_id : Option String
  pub amount : String
  pub currency : String
  pub merchant : String

-- The object whose canonical JSON text is hashed.
pub record CanonicalPurchase : Type 0 where
  pub amount : String
  pub currency : String
  pub merchant : Option String

abbrev pub PurchaseDigest : Type 0
PurchaseDigest = CanonicalPurchase → String

unfoldable pub build_purchase_payload_hash :
    PurchaseDigest → (amount currency : String) → Option String → String
build_purchase_payload_hash digest amount currency merchant =
    digest (record { amount = amount; currency = currency; merchant = merchant })

-- The clocks and the random digits of a request.
pub record ExecuteCall : Type 0 where
  pub verified_at : Datetime
  pub replay_clock : Clock
  pub uuid16 : String
  pub executed_at : Datetime
  pub receipt : Call

pub record ExecuteReply : Type 0 where
  pub decision_id : String
  pub execution_id : String
  pub executed_at : String

-- `lower` of an ASCII letter. No other letter has one of `bearer` for its lower case.
abbrev pub lower : ℕ → ℕ
lower c = if leb 65 c && leb c 90 then c + 32 else c

-- `s.lower().startswith(prefix)`, for a prefix of ASCII
unfoldable pub starts_with_lower : String → String → Bool
starts_with_lower s String.[] = true
starts_with_lower String.[] (String.◌∷◌ p prefix) = false
starts_with_lower (String.◌∷◌ c s) (String.◌∷◌ p prefix) =
    lower (code c) == code p && starts_with_lower s prefix

-- `_extract_bearer_token`
abbrev pub given_token : String → Result String
given_token token = if str_eq token "" then raise execution_token_missing else ok token

abbrev pub bearer_token : String → Result String
bearer_token value =
    if str_eq value ""
    then raise execution_token_missing
    else if not (starts_with_lower value "bearer ")
    then raise execution_token_missing
    else given_token (strip (drop_chars 7 value))

unfoldable pub extract_bearer_token : Option String → Result String
unfolding starts_with_lower
extract_bearer_token none = raise execution_token_missing
extract_bearer_token (some authorization) = bearer_token (strip authorization)

-- `_claim_run_id`: the run of the token, else of the request, else one of the decision.
abbrev pub fallback_or : Option String → String → String
fallback_or none decision_run = decision_run
fallback_or (some fallback) decision_run =
    if is_blank fallback then decision_run else strip fallback

abbrev pub claimed_or : Option String → String → String
claimed_or none other_run = other_run
claimed_or (some claimed) other_run = if is_blank claimed then other_run else claimed

unfoldable pub claim_run_id : Claims → Option String → String
claim_run_id claims fallback_run_id =
    claimed_or claims.run_id (fallback_or fallback_run_id ("run_" ++ claims.decision_id))

-- `_error_code_for_exception`
unfoldable pub error_code_for_exception : Error → String
error_code_for_exception execution_token_invalid = "EXECUTION_TOKEN_INVALID"
error_code_for_exception execution_token_expired = "EXECUTION_TOKEN_EXPIRED"
error_code_for_exception (execution_action_mismatch expected held) = "EXECUTION_ACTION_MISMATCH"
error_code_for_exception execution_payload_mismatch = "EXECUTION_PAYLOAD_MISMATCH"
error_code_for_exception _ = "EXECUTION_BLOCKED"

-- The exceptions that leave a receipt.
abbrev pub is_blocking : Error → Bool
is_blocking execution_token_invalid = true
is_blocking execution_token_expired = true
is_blocking (execution_action_mismatch expected held) = true
is_blocking execution_payload_mismatch = true
is_blocking _ = false

-- `payload.run_id or "run_execution_gate_unscoped"`
abbrev pub run_or_unscoped : Option String → String
run_or_unscoped none = "run_execution_gate_unscoped"
run_or_unscoped (some run_id) = if str_eq run_id "" then "run_execution_gate_unscoped" else run_id

abbrev pub blocked_receipt : Purchase → Error → Receipt
blocked_receipt purchase e = record {
  run_id = run_or_unscoped purchase.run_id;
  event_type = error;
  title = "purchase.create blocked";
  details = "code=" ++ error_code_for_exception e;
  decision_id = none;
  step = "execution_blocked";
}

abbrev pub replayed_receipt : String → Claims → Receipt
replayed_receipt run_id claims = record {
  run_id = run_id;
  event_type = error;
  title = "purchase.create blocked";
  details = "code=EXECUTION_TOKEN_REPLAYED";
  decision_id = some claims.decision_id;
  step = "execution_blocked";
}

abbrev pub executed_receipt : String → Claims → String → Purchase → Receipt
executed_receipt run_id claims execution_id purchase = record {
  run_id = run_id;
  event_type = action;
  title = "purchase.create executed";
  details =
      "decision_id=" ++ claims.decision_id ++ " execution_id=" ++ execution_id ++ " amount="
      ++ purchase.amount ++ " currency=" ++ purchase.currency ++ " merchant=" ++ purchase.merchant;
  decision_id = some claims.decision_id;
  step = "purchase_executed";
}

-- `int(claims["exp"])`: a verified token expires later than the clock, so after 1970.
abbrev pub exp_unix : ℤ → ℕ
exp_unix (pos n) = n
exp_unix (negsuc n) = 0

abbrev pub with_events : {S A : Type 0} → Exec S A → Exec (World S) A
with_events m w = let r = m w.events in (record w { events = r.0 }, r.1)

-- The arguments of the verification.
unfoldable pub expected_of : PurchaseDigest → Purchase → Expected
unfolding build_purchase_payload_hash
expected_of digest purchase = record {
  action = "purchase.create";
  secret = none;
  payload_hash = some (
      build_purchase_payload_hash digest purchase.amount purchase.currency
        (some purchase.merchant));
  key_map = none;
}

-- `_execution_replay_store.consume_once`
unfoldable pub consume : {S : Type 0} → ExecuteCall → Claims → Exec (World S) Bool
consume call claims w =
    let r = consume_once call.replay_clock claims.jti (exp_unix claims.exp) w.used in
    (record w { used = r.0 }, ok r.1)

module _ {S : Type 0} (store : EventStore S) (model_validate : EventPayload → Validated) where
  abbrev pub receipt : ExecuteCall → Receipt → Exec (World S) StoredEvent
  receipt call r = with_events (append_runtime_receipt store model_validate call.receipt r)

  -- A receipt, and then the reply or the exception.
  unfoldable pub receipt_then : {A : Type 0} → ExecuteCall → Receipt → Result A → Exec (World S) A
  receipt_then call r answer = receipt call r >>= λ stored. lift answer

  unfoldable pub refuse : ExecuteCall → Purchase → Error → Exec (World S) Claims
  unfolding error_code_for_exception receipt_then
  refuse call purchase e w =
      let refused = receipt_then call (blocked_receipt purchase e) (raise e) w in
      if is_blocking e then refused else (w, raise e)

  abbrev pub or_refuse : ExecuteCall → Purchase → Result Claims → Exec (World S) Claims
  or_refuse call purchase (ok claims) = pure claims
  or_refuse call purchase (raise e) = refuse call purchase e

  -- What follows the consumption of the token.
  unfoldable pub run_purchase : ExecuteCall → Purchase → Claims → Bool → Exec (World S) ExecuteReply
  unfolding claim_run_id receipt_then
  run_purchase call purchase claims true =
      let execution_id = "exec_" ++ call.uuid16 in
      receipt_then call
        (executed_receipt (claim_run_id claims purchase.run_id) claims execution_id purchase)
        (ok (record {
          decision_id = claims.decision_id;
          execution_id = execution_id;
          executed_at = format_timestamp call.executed_at;
        }))
  run_purchase call purchase claims false =
      receipt_then call (replayed_receipt (claim_run_id claims purchase.run_id) claims)
        (raise execution_token_replayed)

module _ {S : Type 0} (store : EventStore S) (model_validate : EventPayload → Validated)
    (codec : Codec) (env : Environment) (digest : PurchaseDigest) where
  unfoldable pub verified : ExecuteCall → Purchase → String → Exec (World S) Claims
  unfolding expected_of refuse
  verified call purchase token =
      or_refuse store model_validate call purchase
        (verify_execution_token codec env call.verified_at (expected_of digest purchase) token)

  unfoldable pub execute_purchase_create :
      ExecuteCall → Purchase → Option String → Exec (World S) ExecuteReply
  unfolding extract_bearer_token verified consume run_purchase
  execute_purchase_create call purchase authorization = do
    token ← lift (extract_bearer_token authorization)
    claims ← verified call purchase token
    consumed ← consume call claims
    run_purchase store model_validate call purchase claims consumed
