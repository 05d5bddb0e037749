-- ===== src/Gate/Path.antt =====
-- controllers/events_controller.py: from an approval to the execution.
use Prim.Native.String.{◌++◌}
use night_ledger.Prelude.{
  ◌≤◌, String, true, false, not, any, Option, none, some, ◌≡◌, refl, ap, sym, ◌∙◌, ltb, eq_refl,
  if◌then◌else◌,
}
use night_ledger.Prelude.Dict.{Dict}
use night_ledger.Prelude.Time.{Datetime, unix, format_timestamp}
use night_ledger.Schema.{EventPayload, is_approved}
use night_ledger.Errors as Errors
use night_ledger.Errors.{Result, ok, raise, is_ok, Error, execution_token_expired}
use night_ledger.EventStore.{EventStore}
use night_ledger.EventStore.Contract.{IsEventStore, has_id}
use night_ledger.Ingest.{Validated}
use night_ledger.Replay.{consume_once}
use night_ledger.Approval.{DecisionState, get_approval_decision_state}
use night_ledger.Tokens.{Json, Codec, Environment}
use night_ledger.Tokens.Keys.{resolve_signing_secret}
use night_ledger.Tokens.Mint.{MintRequest, expiry, token_payload, signed_token}
use night_ledger.Tokens.Verify.{Claims, verify_execution_token}
use night_ledger.Tokens.RoundTrip.{Carries, claims_of, minted-verified}
use night_ledger.Gate.{append_runtime_receipt}
use night_ledger.Gate.Execute.{
  World, Purchase, PurchaseDigest, ExecuteCall, ExecuteReply, build_purchase_payload_hash,
  extract_bearer_token, expected_of, claim_run_id, executed_receipt, receipt_then, run_purchase,
  execute_purchase_create,
}
use night_ledger.Gate.Mint.{
  MintPayload, MintCall, MintReply, request_for, minted_receipt, mint_for_state,
  mint_execution_token_for_decision,
}
use night_ledger.Gate.Once.{Attempt, verdict, attempt-verified}
use night_ledger.Gate.Receipts.{IsAccepted}
use night_ledger.Gate.Replies.{receipt-stored, mint-signed, replied, receipt_then-replied}

module _ {S : Type 0} (store : EventStore S) (Valid : S → Type 0)
    (contract : IsEventStore store Valid) (model_validate : EventPayload → Validated)
    (codec : Codec) (env : Environment) (digest : PurchaseDigest) (decision_id : String)
    (state : DecisionState) (payload : MintPayload) (mint : MintCall) (kid secret : String) where
  abbrev pub asked : MintRequest
  asked = request_for digest state decision_id payload

  -- Of the minted token: its expiry, what it carries, the token itself and the claims it makes.
  abbrev pub expires_at : Datetime
  expires_at = expiry codec env mint.issued_at none

  abbrev pub carried : Dict Json
  carried = token_payload asked kid mint.uuid mint.issued_at expires_at

  abbrev pub token : String
  token = signed_token codec secret carried

  abbrev pub minted_claims : Claims
  minted_claims = claims_of asked kid mint.uuid mint.issued_at expires_at

  abbrev pub purchase_of : Option String → Purchase
  purchase_of run_id = record {
    run_id = run_id;
    amount = payload.amount;
    currency = payload.currency;
    merchant = payload.merchant;
  }

  token-verified :
      (now : Datetime) (run_id : Option String)
      → resolve_signing_secret env none none ≡ ok (kid, secret)
      → Carries codec carried secret
      → mint.issued_at ≤ now
      → ltb (unix now) (unix expires_at) ≡ true
      → verify_execution_token codec env now (expected_of digest (purchase_of run_id)) token
        ≡ ok minted_claims
  unfolding request_for expected_of
  token-verified now run_id keys carries le soon =
      sym (
        ap
          (λ (r : Result (String × String)). Errors.◌>>=◌ r (λ m.
            verify_execution_token codec env now (expected_of digest (purchase_of run_id)) m.0))
          (mint-signed codec env mint.issued_at mint.uuid kid secret asked keys))
      ∙ minted-verified codec env mint.issued_at now mint.uuid kid secret asked asked.payload_hash
          keys refl carries le
          (ap not (
            eq_refl (
              build_purchase_payload_hash digest payload.amount payload.currency
                (some payload.merchant))))
      ∙ ap (λ b. if b then ok minted_claims else raise execution_token_expired) soon

  abbrev pub mint_reply : MintReply
  mint_reply = record {
    decision_id = decision_id;
    action = "purchase.create";
    execution_token = token;
    expires_at = format_timestamp expires_at;
  }

  mints :
      (s : S)
      → Valid s
      → IsAccepted store model_validate mint.receipt
          (minted_receipt state.run_id decision_id (format_timestamp expires_at))
          s
      → get_approval_decision_state store s decision_id ≡ ok state
      → is_approved state.status ≡ true
      → resolve_signing_secret env none none ≡ ok (kid, secret)
      → any (has_id ("evt_runtime_" ++ mint.receipt.uuid16)) (store.list_by_run_id s state.run_id)
        ≡ false
      → (mint_execution_token_for_decision store model_validate codec env digest mint decision_id
          payload s).1
        ≡ ok mint_reply
  unfolding mint_execution_token_for_decision mint_for_state request_for
  mints s held accepts known approved keys fresh =
      let r = minted_receipt state.run_id decision_id (format_timestamp expires_at) in
      rw (known, approved, mint-signed codec env mint.issued_at mint.uuid kid secret asked keys)
        (replied (append_runtime_receipt store model_validate mint.receipt r s) mint_reply
          (receipt-stored store Valid contract model_validate mint.receipt r s held accepts fresh))

  executes :
      (w : World S) (call : ExecuteCall) (run_id authorization : Option String)
      → Valid w.events
      → IsAccepted store model_validate call.receipt
          (executed_receipt
            (claim_run_id minted_claims run_id)
            minted_claims
            ("exec_" ++ call.uuid16)
            (purchase_of run_id))
          w.events
      → resolve_signing_secret env none none ≡ ok (kid, secret)
      → Carries codec carried secret
      → extract_bearer_token authorization ≡ ok token
      → mint.issued_at ≤ call.verified_at
      → ltb (unix call.verified_at) (unix expires_at) ≡ true
      → (consume_once call.replay_clock ("jti_" ++ mint.uuid) (unix expires_at) w.used).1 ≡ true
      → any
          (has_id ("evt_runtime_" ++ call.receipt.uuid16))
          (store.list_by_run_id w.events (claim_run_id minted_claims run_id))
        ≡ false
      → is_ok
          (execute_purchase_create store model_validate codec env digest call
            (purchase_of run_id)
            authorization
            w).1
        ≡ true
  unfolding verdict claims_of run_purchase receipt_then
  executes w call run_id authorization held accepts keys carries given le soon unused fresh =
      let a : Attempt = record {
        call = call;
        purchase = purchase_of run_id;
        authorization = authorization;
      } in
      let passed : verdict store model_validate codec env digest a ≡ ok minted_claims =
        rw given (token-verified call.verified_at run_id keys carries le soon) in
      let r =
        executed_receipt (claim_run_id minted_claims run_id) minted_claims ("exec_" ++ call.uuid16)
          (purchase_of run_id) in
      ap (λ (o : World S × Result ExecuteReply). is_ok o.1)
        (attempt-verified store model_validate codec env digest a w minted_claims passed)
      ∙ rw unused (
          receipt_then-replied store model_validate call r _ _ (
            receipt-stored store Valid contract model_validate call.receipt r w.events held accepts
              fresh))

  -- A decision that is approved gets a token, and the token executes its purchase, when the keys are
  -- configured, base64 and JSON carry the token, pydantic accepts the two receipts and their
  -- identifiers are new to their runs, and the request presents the token for the purchase it was
  -- minted for, from its issue until its expiry, with an identifier that was not used.
  pub approved-executes :
      (s : S) (w : World S) (call : ExecuteCall) (run_id authorization : Option String)
      → Valid s
      → Valid w.events
      → IsAccepted store model_validate mint.receipt
          (minted_receipt state.run_id decision_id (format_timestamp expires_at))
          s
      → IsAccepted store model_validate call.receipt
          (executed_receipt
            (claim_run_id minted_claims run_id)
            minted_claims
            ("exec_" ++ call.uuid16)
            (purchase_of run_id))
          w.events
      → get_approval_decision_state store s decision_id ≡ ok state
      → is_approved state.status ≡ true
      → resolve_signing_secret env none none ≡ ok (kid, secret)
      → Carries codec carried secret
      → any (has_id ("evt_runtime_" ++ mint.receipt.uuid16)) (store.list_by_run_id s state.run_id)
        ≡ false
      → extract_bearer_token authorization ≡ ok token
      → mint.issued_at ≤ call.verified_at
      → ltb (unix call.verified_at) (unix expires_at) ≡ true
      → (consume_once call.replay_clock ("jti_" ++ mint.uuid) (unix expires_at) w.used).1 ≡ true
      → any
          (has_id ("evt_runtime_" ++ call.receipt.uuid16))
          (store.list_by_run_id w.events (claim_run_id minted_claims run_id))
        ≡ false
      → ((mint_execution_token_for_decision store model_validate codec env digest mint decision_id
            payload s).1
          ≡ ok (record {
            decision_id = decision_id;
            action = "purchase.create";
            execution_token = token;
            expires_at = format_timestamp expires_at;
          }))
        × (is_ok
              (execute_purchase_create store model_validate codec env digest call
                (purchase_of run_id)
                authorization
                w).1
            ≡ true)
  approved-executes s w call run_id authorization held held' accepts accepts' known approved keys
        carries fresh given le soon unused fresh' =
      (
        mints s held accepts known approved keys fresh,
        executes w call run_id authorization held' accepts' keys carries given le soon unused
            fresh',
      )
