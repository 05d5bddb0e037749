-- ===== src/Presenter/Refusals.antt =====
-- The reply to a purchase whose token does not pass, from the controller to the handlers of main.py.
use night_ledger.Prelude.{
  ℕ, String, true, ◌≡◌, ◌⊎◌, inl, inr, refl, sym, Option, none, some, arith, if◌then◌else◌,
  Bool-cases,
}
use night_ledger.Prelude.Text.{strip}
use night_ledger.Errors as Errors
use night_ledger.Errors.{
  Result, ok, raise, Error, execution_token_missing, execution_token_misconfigured, uncaught,
  raise-injective, Result-cases,
}
use night_ledger.Exec.{Exec, proceed, ◌>>=◌}
use night_ledger.Tokens.{Codec, Environment}
use night_ledger.Tokens.Verify.{Claims, verify_execution_token}
use night_ledger.Schema.{EventPayload, StoredEvent}
use night_ledger.EventStore.{EventStore}
use night_ledger.Ingest.{Validated}
use night_ledger.Gate.{append_runtime_receipt}
use night_ledger.Gate.Execute.{
  World, PurchaseDigest, ExecuteReply, bearer_token, extract_bearer_token, expected_of, is_blocking,
  blocked_receipt, receipt_then, refuse, verified, consume, run_purchase, execute_purchase_create,
}
use night_ledger.Gate.Once.{Attempt, verdict}
use night_ledger.Presenter.{Response}
use night_ledger.Presenter.Handle.{handle}
use night_ledger.Presenter.Raises.{
  of_token, bind-Raises, extract_bearer_token-Raises, verify_execution_token-Raises,
}

abbrev pub status_of : Option Response → Option ℕ
status_of none = none
status_of (some response) = some response.status_code

abbrev Answer : Error → Type 0
Answer e =
    (status_of (handle e) ≡ some 403)
    ⊎ (((message : String) × (e ≡ execution_token_misconfigured message)
          × (status_of (handle e) ≡ some 500))
        ⊎ ((name : String) × (e ≡ uncaught name) × (handle e ≡ none)))

answer : (e : Error) → of_token e ≡ true → Answer e
unfolding handle
answer (Error.schema_validation a) h = cc
answer (Error.business_rule_validation a) h = cc
answer (Error.storage_write a) h = cc
answer (Error.storage_read a) h = cc
answer (Error.duplicate_event a b) h = cc
answer (Error.run_not_found a) h = cc
answer (Error.inconsistent_run_state a) h = cc
answer (Error.approval_not_found a b) h = cc
answer (Error.ambiguous_event_id a) h = cc
answer (Error.no_pending_approval a) h = cc
answer (Error.duplicate_approval a b c) h = cc
answer Error.execution_token_missing h = inl refl
answer Error.execution_token_invalid h = inl refl
answer Error.execution_token_expired h = inl refl
answer Error.execution_token_replayed h = cc
answer Error.execution_payload_mismatch h = inl refl
answer (Error.execution_action_mismatch a b) h = inl refl
answer (Error.execution_decision_not_approved a) h = cc
answer (Error.execution_token_misconfigured a) h = inr (inl (a, refl, refl))
answer (Error.rule_configuration a) h = cc
answer (Error.rule_expression a b c) h = cc
answer (Error.rule_input a b) h = cc
answer (Error.policy_catalog_version_mismatch a b) h = cc
answer (Error.uncaught a) h = inr (inr (a, refl, refl))

-- The header raises one exception, which leaves no receipt.
header_missing :
    (authorization : Option String) (e : Error)
    → extract_bearer_token authorization ≡ raise e
    → e ≡ execution_token_missing
unfolding extract_bearer_token
header_missing none e h = raise-injective (sym h)
header_missing (some authorization) e h = of_value (strip authorization) h
  where
    of_value : (value : String) → bearer_token value ≡ raise e → e ≡ execution_token_missing
    of_value value k = ground arith

-- The exception that is left: the one that was caught, or that of the receipt.
abbrev pub left_by : Error → Result StoredEvent → Error
left_by e (ok stored) = e
left_by e (raise x) = x

module _ {S : Type 0} (store : EventStore S) (model_validate : EventPayload → Validated)
    (codec : Codec) (env : Environment) (digest : PurchaseDigest) (a : Attempt) where
  -- The receipt of a refused token.
  abbrev pub blocked : Error → S → S × Result StoredEvent
  blocked e =
      append_runtime_receipt store model_validate a.call.receipt (blocked_receipt a.purchase e)

  -- The world and the exception after a token is refused.
  abbrev pub refusal : Error → World S → World S × Error
  refusal e w =
      if is_blocking e
      then (record w { events = (blocked e w.events).0 }, left_by e (blocked e w.events).1)
      else (w, e)

  refuse-refusal :
      (e : Error) (w : World S)
      → refuse store model_validate a.call a.purchase e w ≡ ((refusal e w).0, raise (refusal e w).1)
  unfolding refuse receipt_then
  refuse-refusal e w = elim (Bool-cases (is_blocking e)) [
    | inr h ↦ rw h refl
    | inl h ↦ elim (Result-cases (blocked e w.events).1) [
      | inl (stored, k) ↦ rw (h, k) refl
      | inr (x, k) ↦ rw (h, k) refl
    ]
  ]

  -- A request to execute a purchase whose header or token is refused, whatever it holds, raises
  -- that exception, and the table of the used tokens is as it was. If the token is invalid,
  -- expired, or of another action or payload, the receipt comes first, and an exception that it
  -- raises is left instead. The exception of the token is answered with 403, unless the keys are
  -- not configured, which is answered with 500, or it is one of Python's own, which no handler of
  -- the application catches.
  pub refused-answer :
      (w : World S) (e : Error)
      → verdict store model_validate codec env digest a ≡ raise e
      → (execute_purchase_create store model_validate codec env digest a.call a.purchase
            a.authorization w
          ≡ ((refusal e w).0, raise (refusal e w).1))
        × ((refusal e w).0.used ≡ w.used)
        × ((status_of (handle e) ≡ some 403)
            ⊎ (((message : String) × (e ≡ execution_token_misconfigured message)
                  × (status_of (handle e) ≡ some 500))
                ⊎ ((name : String) × (e ≡ uncaught name) × (handle e ≡ none))))
  unfolding verdict expected_of execute_purchase_create verified
  refused-answer w e h = (
    by_token (extract_bearer_token a.authorization) refl h,
    elim (Bool-cases (is_blocking e)) [ inl k ↦ rw k refl | inr k ↦ rw k refl ],
    answer e (
        bind-Raises _ _ (extract_bearer_token-Raises a.authorization)
          (λ token.
            verify_execution_token-Raises codec env a.call.verified_at
              (expected_of digest a.purchase) token refl refl)
          e h),
  )
    where
      served : Claims → Exec (World S) ExecuteReply
      served claims = consume a.call claims >>= λ consumed.
          run_purchase store model_validate a.call a.purchase claims consumed

      goes_on : String → Exec (World S) ExecuteReply
      goes_on token =
          verified store model_validate codec env digest a.call a.purchase token >>= served

      by_token :
          (o : Result String)
          → extract_bearer_token a.authorization ≡ o
          → Errors.◌>>=◌ o
              (verify_execution_token codec env a.call.verified_at (expected_of digest a.purchase))
            ≡ raise e
          → proceed goes_on w o ≡ ((refusal e w).0, raise (refusal e w).1)
      by_token (raise x) given k =
          let missing = header_missing a.authorization x given in
          let same : x ≡ e = raise-injective k in rw (← same, missing) refl
      by_token (ok token) given k = rw (k, refuse-refusal e w) refl
