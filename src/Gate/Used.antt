-- ===== src/Gate/Used.antt =====
-- controllers/events_controller.py: what the steps of an execution leave of the used tokens.
use night_ledger.Prelude.{Bool, true, false, ◌≡◌, inl, inr, refl, Bool-cases}
use night_ledger.Schema.{EventPayload, StoredEvent}
use night_ledger.Errors.{Result, ok, raise, Error, is_ok}
use night_ledger.Exec.{Exec, proceed, lift}
use night_ledger.EventStore.{EventStore}
use night_ledger.Ingest.{Validated}
use night_ledger.Tokens.Verify.{Claims}
use night_ledger.Gate.{Receipt}
use night_ledger.Gate.Execute.{
  World, Purchase, ExecuteCall, ExecuteReply, is_blocking, blocked_receipt, receipt, receipt_then,
  refuse, run_purchase,
}

-- After an exception nothing runs.
pub proceed-raised :
    {S A B : Type 0} (next : A → Exec S B) (s : S) (r : Result A)
    → is_ok r ≡ false
    → ((proceed next s r).0 ≡ s) × (is_ok (proceed next s r).1 ≡ false)
proceed-raised next s (ok a) h = cc
proceed-raised next s (raise e) h = (refl, refl)

module _ {S : Type 0} (store : EventStore S) (model_validate : EventPayload → Validated) where
  -- A receipt leaves the table of the used tokens alone.
  pub receipt_then-used :
      {A : Type 0} (call : ExecuteCall) (r : Receipt) (answer : Result A) (w : World S)
      → (receipt_then store model_validate call r answer w).0.used ≡ w.used
  unfolding receipt_then
  receipt_then-used call r answer w = by_outcome (receipt store model_validate call r w).1
    where
      by_outcome :
          (o : Result StoredEvent)
          → (proceed (λ stored. lift answer) (receipt store model_validate call r w).0 o).0.used
            ≡ w.used
      by_outcome (ok e) = refl
      by_outcome (raise e) = refl

  pub receipt_then-raises :
      (A : Type 0) (call : ExecuteCall) (r : Receipt) (e : Error) (w : World S)
      → is_ok {A = A} (receipt_then store model_validate call r (raise e) w).1 ≡ false
  unfolding receipt_then
  receipt_then-raises A call r e w = by_outcome (receipt store model_validate call r w).1
    where
      by_outcome :
          (o : Result StoredEvent)
          → is_ok
              (proceed
                (λ stored. lift {A = A} (raise e))
                (receipt store model_validate call r w).0
                o).1
            ≡ false
      by_outcome (ok stored) = refl
      by_outcome (raise x) = refl

  pub refuse-used :
      (call : ExecuteCall) (purchase : Purchase) (e : Error) (w : World S)
      → (refuse store model_validate call purchase e w).0.used ≡ w.used
  unfolding refuse
  refuse-used call purchase e w = elim (Bool-cases (is_blocking e)) [
    | inl h ↦ rw h (receipt_then-used call (blocked_receipt purchase e) (raise e) w)
    | inr h ↦ rw h refl
  ]

  pub refuse-raises :
      (call : ExecuteCall) (purchase : Purchase) (e : Error) (w : World S)
      → is_ok (refuse store model_validate call purchase e w).1 ≡ false
  unfolding refuse
  refuse-raises call purchase e w = elim (Bool-cases (is_blocking e)) [
    | inl h ↦ rw h (receipt_then-raises Claims call (blocked_receipt purchase e) e w)
    | inr h ↦ rw h refl
  ]

  pub run_purchase-used :
      (call : ExecuteCall) (purchase : Purchase) (claims : Claims) (consumed : Bool) (w : World S)
      → (run_purchase store model_validate call purchase claims consumed w).0.used ≡ w.used
  unfolding run_purchase
  run_purchase-used call purchase claims true w = receipt_then-used call _ _ w
  run_purchase-used call purchase claims false w = receipt_then-used call _ _ w

  pub run_purchase-consumed :
      (call : ExecuteCall) (purchase : Purchase) (claims : Claims) (w : World S)
      → is_ok (run_purchase store model_validate call purchase claims false w).1 ≡ false
  unfolding run_purchase
  run_purchase-consumed call purchase claims w = receipt_then-raises ExecuteReply call _ _ w
