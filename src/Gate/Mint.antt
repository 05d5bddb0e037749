-- ===== src/Gate/Mint.antt =====
-- controllers/events_controller.py: a token for a decision that a human approved.
use Prim.Native.String.{◌++◌}
use night_ledger.Prelude.{String, not, none, some, if◌then◌else◌}
use night_ledger.Prelude.Time.{Datetime}
use night_ledger.Schema.{EventPayload, decision, is_approved}
use night_ledger.Errors.{raise, execution_decision_not_approved}
use night_ledger.Exec.{Exec, lift, pure, ◌>>=◌, ◌>>◌}
use night_ledger.EventStore.{EventStore}
use night_ledger.Ingest.{Validated}
use night_ledger.Approval.{DecisionState, get_approval_decision_state}
use night_ledger.Tokens.{Codec, Environment}
use night_ledger.Tokens.Mint.{MintRequest, mint_execution_token}
use night_ledger.Gate.{Call, Receipt, append_runtime_receipt}
use night_ledger.Gate.Execute.{PurchaseDigest, build_purchase_payload_hash}

-- `ExecutionTokenMintRequest`, as pydantic leaves it.
pub record MintPayload : Type 0 where
  pub amount : String
  pub currency : String
  pub merchant : String

-- The clock at the minting, the random part of the token's identifier, and those of the receipt.
pub record MintCall : Type 0 where
  pub issued_at : Datetime
  pub uuid : String
  pub receipt : Call

pub record MintReply : Type 0 where
  pub decision_id : String
  pub action : String
  pub execution_token : String
  pub expires_at : String

unfoldable pub request_for : PurchaseDigest → DecisionState → String → MintPayload → MintRequest
unfolding build_purchase_payload_hash
request_for digest state decision_id payload = record {
  decision_id = decision_id;
  action = "purchase.create";
  secret = none;
  ttl_seconds = none;
  payload_hash =
      some (
        build_purchase_payload_hash digest payload.amount payload.currency (some payload.merchant));
  run_id = some state.run_id;
  kid = none;
}

abbrev pub minted_receipt : String → String → String → Receipt
minted_receipt run_id decision_id expires_at = record {
  run_id = run_id;
  event_type = decision;
  title = "execution token minted";
  details = "decision_id=" ++ decision_id ++ " expires_at=" ++ expires_at;
  decision_id = some decision_id;
  step = "execution_token_minted";
}

module _ {S : Type 0} (store : EventStore S) (model_validate : EventPayload → Validated)
    (codec : Codec) (env : Environment) (digest : PurchaseDigest) where
  -- What follows the test of the decision's status.
  unfoldable pub mint_for_state : MintCall → DecisionState → String → MintPayload → Exec S MintReply
  unfolding append_runtime_receipt request_for
  mint_for_state call state decision_id payload = do
    minted ← lift (
        mint_execution_token codec env call.issued_at call.uuid
          (request_for digest state decision_id payload))
    append_runtime_receipt store model_validate call.receipt
        (minted_receipt state.run_id decision_id minted.1)
    pure (record {
      decision_id = decision_id;
      action = "purchase.create";
      execution_token = minted.0;
      expires_at = minted.1;
    })

  abbrev pub if_approved : MintCall → String → MintPayload → DecisionState → Exec S MintReply
  if_approved call decision_id payload state s =
      let minted = mint_for_state call state decision_id payload s in
      if not (is_approved state.status)
      then (s, raise (execution_decision_not_approved decision_id))
      else minted

  -- `POST /v1/approvals/decisions/{decision_id}/execution-token`
  unfoldable pub mint_execution_token_for_decision :
      MintCall → String → MintPayload → Exec S MintReply
  unfolding mint_for_state
  mint_execution_token_for_decision call decision_id payload s =
      (lift (get_approval_decision_state store s decision_id)
          >>= if_approved call decision_id payload)
        s
