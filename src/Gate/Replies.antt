-- ===== src/Gate/Replies.antt =====
-- controllers/events_controller.py: the steps that end with a receipt, when it is stored.
use Prim.Native.String.{◌++◌}
use night_ledger.Prelude.{String, true, false, not, any, ◌≡◌, refl, ap, ◌∙◌}
use night_ledger.Prelude.Time.{Datetime, format_timestamp}
use night_ledger.Schema.{EventPayload, StoredEvent}
use night_ledger.Errors.{Result, ok, raise, is_ok}
use night_ledger.Exec as Exec
use night_ledger.Exec.{proceed}
use night_ledger.EventStore.{EventStore}
use night_ledger.EventStore.Contract.{IsEventStore, has_id}
use night_ledger.Ingest.{Validated}
use night_ledger.Tokens.{Codec, Environment}
use night_ledger.Tokens.Keys.{resolve_signing_secret}
use night_ledger.Tokens.Mint.{
  MintRequest, expiry, token_payload, signed_token, mint_execution_token,
}
use night_ledger.Gate.{Call, Receipt, receipt_event, append_runtime_receipt}
use night_ledger.Gate.Execute.{World, ExecuteCall, receipt, receipt_then}
use night_ledger.Gate.Receipts.{IsAccepted, receipt-appended}

-- An identifier that the run has no event of is stored.
pub receipt-stored :
    {S : Type 0} (store : EventStore S) (Valid : S → Type 0) (contract : IsEventStore store Valid)
    (model_validate : EventPayload → Validated) (call : Call) (r : Receipt) (s : S)
    → Valid s
    → IsAccepted store model_validate call r s
    → any (has_id ("evt_runtime_" ++ call.uuid16)) (store.list_by_run_id s r.run_id) ≡ false
    → is_ok (append_runtime_receipt store model_validate call r s).1 ≡ true
unfolding receipt_event
receipt-stored {S = S} store Valid contract model_validate call r s held accepts fresh =
    ap (λ (a : S × Result StoredEvent). is_ok a.1)
      (receipt-appended store model_validate call r s accepts)
    ∙ contract.unique s (receipt_event call r (store.list_by_run_id s r.run_id)) held
    ∙ ap not fresh

pub mint-signed :
    (codec : Codec) (env : Environment) (issued_at : Datetime) (uuid kid secret : String)
    (asked : MintRequest)
    → resolve_signing_secret env asked.secret asked.kid ≡ ok (kid, secret)
    → mint_execution_token codec env issued_at uuid asked
      ≡ ok (
        signed_token codec secret
            (token_payload asked kid uuid issued_at (expiry codec env issued_at asked.ttl_seconds)),
        format_timestamp (expiry codec env issued_at asked.ttl_seconds),
      )
unfolding mint_execution_token
mint-signed codec env issued_at uuid kid secret asked keys = rw keys refl

-- The replies of steps that end with a receipt.
pub replied :
    {S A : Type 0} (outcome : S × Result StoredEvent) (reply : A)
    → is_ok outcome.1 ≡ true
    → (proceed (λ stored. Exec.pure reply) outcome.0 outcome.1).1 ≡ ok reply
replied (s, ok e) reply h = refl
replied (s, raise e) reply h = cc

pub receipt_then-replied :
    {S A : Type 0} (store : EventStore S) (model_validate : EventPayload → Validated)
    (call : ExecuteCall) (r : Receipt) (reply : A) (w : World S)
    → is_ok (append_runtime_receipt store model_validate call.receipt r w.events).1 ≡ true
    → is_ok (receipt_then store model_validate call r (ok reply) w).1 ≡ true
unfolding receipt_then
receipt_then-replied store model_validate call r reply w h =
    ap is_ok (replied (receipt store model_validate call r w) reply h)
