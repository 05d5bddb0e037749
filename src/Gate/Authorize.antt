-- ===== src/Gate/Authorize.antt =====
-- controllers/events_controller.py: `POST /v1/mcp/authorize_action`.
use Prim.Native.String.{◌++◌}
use night_ledger.Prelude.{
  String, Bool, true, false, not, Option, none, some, List, [], ◌∷◌, length, is_some, if◌then◌else◌,
}
use night_ledger.Prelude.Dict.{lookup}
use night_ledger.Prelude.Text.{strip, is_blank}
use night_ledger.Schema.{EventPayload, StoredEvent, decision}
use night_ledger.Errors as Errors
use night_ledger.Errors.{Result, ok, raise, >>=-eq-ok, ok-injective}
use night_ledger.Exec.{Exec, lift, pure, ◌>>=◌, ◌>>◌}
use night_ledger.EventStore.{EventStore}
use night_ledger.Ingest.{Validated}
use night_ledger.RunStatus.{project_run_status}
use night_ledger.Authorize.{
  AuthorizeActionState, allowed, requires_approval, denied, Extra, null, text, other,
  AuthorizeActionRequest, RunFacts, LoadedRules, Decision, Evaluator, Fingerprint,
  evaluate_authorize_action,
}
use night_ledger.Tokens.{Codec, Environment}
use night_ledger.Tokens.Mint.{MintRequest, mint_execution_token}
use night_ledger.Gate.{Receipt, append_runtime_receipt, Call}
use night_ledger.Gate.Execute.{PurchaseDigest, build_purchase_payload_hash}
use night_ledger.Prelude.Time.{Datetime}

-- `_context_merchant`
abbrev pub merchant_of : Option Extra → Option String
merchant_of none = none
merchant_of (some null) = none
merchant_of (some (text s)) = if is_blank s then none else some (strip s)
merchant_of (some (other shown)) = some shown

unfoldable pub context_merchant : AuthorizeActionRequest → Option String
context_merchant request = merchant_of (lookup "merchant" request.model_extra)

-- A text that is not blank, without the white space at its ends.
abbrev pub given_text : Option Extra → Option String
given_text (some (text s)) = if is_blank s then none else some (strip s)
given_text _ = none

-- `_context_run_id`
abbrev pub run_id_or : Option String → Option String → String → String
run_id_or (some run_id) request_id decision_id = run_id
run_id_or none (some request_id) decision_id = "run_" ++ request_id
run_id_or none none decision_id = "run_" ++ decision_id

unfoldable pub context_run_id : AuthorizeActionRequest → String → String
context_run_id request decision_id =
    run_id_or (given_text (lookup "run_id" request.model_extra))
      (given_text (lookup "request_id" request.model_extra)) decision_id

-- `_build_run_facts`
abbrev pub no_facts : RunFacts
no_facts = record { event_count = 0; has_pending_approval = false }

abbrev pub facts_of_events : List StoredEvent → Result RunFacts
facts_of_events [] = ok no_facts
facts_of_events (event ∷ events) = Errors.◌>>=◌ (project_run_status (event ∷ events)) (λ status.
    ok (record {
      event_count = length (event ∷ events);
      has_pending_approval = is_some status.pending_approval;
    }))

abbrev pub facts_of_run : {S : Type 0} → EventStore S → S → Option String → Result RunFacts
facts_of_run store s none = ok no_facts
facts_of_run store s (some run_id) = facts_of_events (store.list_by_run_id s run_id)

unfoldable pub build_run_facts :
    {S : Type 0} → EventStore S → AuthorizeActionRequest → S → Result RunFacts
build_run_facts store request s =
    facts_of_run store s (given_text (lookup "run_id" request.model_extra))

unfoldable pub state_text : AuthorizeActionState → String
state_text allowed = "allow"
state_text requires_approval = "requires_approval"
state_text denied = "deny"

-- The clock at the minting, the random part of the token's identifier, and those of the receipts.
pub record AuthorizeCall : Type 0 where
  pub decided : Call
  pub issued_at : Datetime
  pub uuid : String
  pub minted : Call

-- The decision, and for an allowed action the token with its expiry.
pub record AuthorizeReply : Type 0 where
  pub decision : Decision
  pub token : Option (String × String)

abbrev pub decided_receipt : String → Decision → Receipt
unfolding state_text
decided_receipt run_id d = record {
  run_id = run_id;
  event_type = decision;
  title = "authorize_action decision recorded";
  details =
      "decision_id="
      ++ d.decision_id
      ++ " state="
      ++ state_text d.state
      ++ " reason_code="
      ++ d.reason_code;
  decision_id = some d.decision_id;
  step = "authorize_action_decision";
}

abbrev pub allowed_receipt : String → Decision → String → Receipt
allowed_receipt run_id d expires_at = record {
  run_id = run_id;
  event_type = decision;
  title = "execution token minted";
  details = "decision_id=" ++ d.decision_id ++ " expires_at=" ++ expires_at;
  decision_id = some d.decision_id;
  step = "execution_token_minted";
}

abbrev pub is_allowed : AuthorizeActionState → Bool
is_allowed allowed = true
is_allowed _ = false

unfoldable pub request_of_decision :
    PurchaseDigest → AuthorizeActionRequest → Decision → String → MintRequest
unfolding build_purchase_payload_hash context_merchant
request_of_decision digest request d run_id = record {
  decision_id = d.decision_id;
  action = request.action;
  secret = none;
  ttl_seconds = none;
  payload_hash = some (
      build_purchase_payload_hash digest request.amount request.currency
        (context_merchant request));
  run_id = some run_id;
  kid = none;
}

module _ {S : Type 0} (store : EventStore S) (model_validate : EventPayload → Validated)
    (codec : Codec) (env : Environment) (digest : PurchaseDigest) (call : AuthorizeCall)
    (request : AuthorizeActionRequest) where
  -- The rest for an action that is allowed.
  unfoldable pub mint_allowed : Decision → String → Exec S AuthorizeReply
  unfolding append_runtime_receipt request_of_decision
  mint_allowed d run_id = do
    minted ← lift (
        mint_execution_token codec env call.issued_at call.uuid
          (request_of_decision digest request d run_id))
    append_runtime_receipt store model_validate call.minted (allowed_receipt run_id d minted.1)
    pure (record { decision = d; token = some minted })

  abbrev pub reply_to : Decision → String → Exec S AuthorizeReply
  reply_to d run_id s =
      let minted = mint_allowed d run_id s in
      if not (is_allowed d.state) then (s, ok (record { decision = d; token = none })) else minted

  unfoldable pub record_decision : Decision → Exec S AuthorizeReply
  unfolding append_runtime_receipt context_run_id mint_allowed state_text
  record_decision d =
      let run_id = context_run_id request d.decision_id in
      append_runtime_receipt store model_validate call.decided (decided_receipt run_id d)
      >>= λ stored. reply_to d run_id

  unfoldable pub authorize_action :
      Evaluator → Fingerprint → Result LoadedRules → Exec S AuthorizeReply
  unfolding build_run_facts record_decision
  authorize_action evaluate fingerprint load s =
      (lift (build_run_facts store request s) >>= λ facts.
      lift (evaluate_authorize_action evaluate request facts fingerprint load) >>= record_decision)
        s
