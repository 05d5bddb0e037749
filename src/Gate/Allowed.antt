-- ===== src/Gate/Allowed.antt =====
-- controllers/events_controller.py: when `authorize_action` gives a token.
use night_ledger.Prelude.{String, true, is_some, filter, ◌≡◌, ap, sym, ◌∙◌, Bool-cases, inl, inr}
use night_ledger.Prelude.Dict.{lookup}
use night_ledger.Schema.{EventPayload}
use night_ledger.Errors.{Result, ok, ok-injective, Result-cases}
use night_ledger.EventStore.{EventStore}
use night_ledger.Ingest.{Validated}
use night_ledger.Authorize.{
  AuthorizeActionRequest, RunFacts, LoadedRules, Decision, Evaluator, Fingerprint, rules_or_none,
  evaluate_authorize_action,
}
use night_ledger.Authorize.Strictest.{strictest, holds, decision-strictest}
use night_ledger.Tokens.{Codec, Environment}
use night_ledger.Tokens.Mint.{mint_execution_token}
use night_ledger.Gate.{append_runtime_receipt}
use night_ledger.Gate.Execute.{PurchaseDigest}
use night_ledger.Gate.Authorize.{
  AuthorizeCall, AuthorizeReply, build_run_facts, context_run_id, decided_receipt, allowed_receipt,
  is_allowed, request_of_decision, mint_allowed, record_decision, authorize_action,
}

module _ {S : Type 0} (store : EventStore S) (model_validate : EventPayload → Validated)
    (codec : Codec) (env : Environment) (digest : PurchaseDigest) (call : AuthorizeCall)
    (request : AuthorizeActionRequest) where
  mint_allowed-token :
      (d : Decision) (run_id : String) (s : S) (reply : AuthorizeReply)
      → (mint_allowed store model_validate codec env digest call request d run_id s).1 ≡ ok reply
      → is_some reply.token ≡ true
  unfolding mint_allowed
  mint_allowed-token d run_id s reply h =
      elim (Result-cases (
        mint_execution_token codec env call.issued_at call.uuid
          (request_of_decision digest request d run_id))) [
            | inr (e, failed) ↦ absurd (let k = (rw failed at h) in cc)
            | inl (minted, signed) ↦
                elim (Result-cases
                  (append_runtime_receipt store model_validate call.minted
                    (allowed_receipt run_id d minted.1) s).1) [
                      | inr (e, failed) ↦ absurd (let k = (rw (signed, failed) at h) in cc)
                      | inl (stored, appended) ↦
                          ap (λ (r : AuthorizeReply). is_some r.token)
                            (sym (ok-injective (rw (signed, appended) at h)))
                    ]
          ]

  record_decision-token :
      (d : Decision) (s : S) (reply : AuthorizeReply)
      → (record_decision store model_validate codec env digest call request d s).1 ≡ ok reply
      → is_some reply.token ≡ is_allowed d.state
  unfolding record_decision
  record_decision-token d s reply h =
      elim (Result-cases
        (append_runtime_receipt store model_validate call.decided
          (decided_receipt (context_run_id request d.decision_id) d) s).1) [
            | inr (e, failed) ↦ absurd (let k = (rw failed at h) in cc)
            | inl (stored, appended) ↦ elim (Bool-cases (is_allowed d.state)) [
              | inl e ↦
                  mint_allowed-token d (context_run_id request d.decision_id) _ reply
                    (rw (appended, e) at h)
                  ∙ sym e
              | inr e ↦
                  ap (λ (r : AuthorizeReply). is_some r.token)
                    (sym (ok-injective (rw (appended, e) at h)))
                  ∙ sym e
            ]
          ]

  -- Where `authorize_action` replies, the reply has a token exactly if the strictest of the user's
  -- rules that apply to the action and are true, on the facts of the run, allows the action.
  pub authorize_action-token :
      (evaluate : Evaluator) (fingerprint : Fingerprint) (load : Result LoadedRules)
      (loaded : LoadedRules) (s : S) (reply : AuthorizeReply)
      → load ≡ ok loaded
      → (authorize_action store model_validate codec env digest call request evaluate fingerprint
          load s).1
        ≡ ok reply
      → (facts : RunFacts) × (build_run_facts store request s ≡ ok facts)
        × (is_some reply.token
            ≡ is_allowed (
                strictest (
                  filter
                    (holds evaluate request facts)
                    (rules_or_none (lookup request.user_id loaded.rules_by_user)))))
  unfolding authorize_action
  authorize_action-token evaluate fingerprint load loaded s reply read h =
      elim (Result-cases (build_run_facts store request s)) [
        | inr (e, failed) ↦ absurd (let k = (rw failed at h) in cc)
        | inl (facts, known) ↦
            elim (Result-cases
              (evaluate_authorize_action evaluate request facts fingerprint load)) [
                | inr (e, failed) ↦ absurd (let k = (rw (known, failed) at h) in cc)
                | inl (d, decided) ↦ (
                  facts,
                  known,
                  record_decision-token d s reply (rw (known, decided) at h)
                      ∙ ap is_allowed
                          (decision-strictest evaluate request facts fingerprint load loaded d read
                            decided).0,
                )
              ]
      ]
