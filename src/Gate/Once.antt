-- ===== src/Gate/Once.antt =====
-- controllers/events_controller.py: how often a token executes.
use night_ledger.Prelude.{
  ℕ, String, Bool, true, false, ◌≡◌, inl, inr, refl, ap, sym, ◌∙◌, Option, List, [], ◌∷◌, leb, All,
}
use night_ledger.Schema.{EventPayload}
use night_ledger.Errors as Errors
use night_ledger.Errors.{Result, ok, raise, Error, Result-cases, is_ok, >>=-eq-ok, ok-injective}
use night_ledger.Exec.{Exec, proceed, ◌>>=◌}
use night_ledger.EventStore.{EventStore}
use night_ledger.Ingest.{Validated}
use night_ledger.Replay.{consume_once}
use night_ledger.Replay.Once.{Request, serve, consume_once-once}
use night_ledger.Tokens.{Codec, Environment}
use night_ledger.Tokens.Verify.{Claims, verify_execution_token}
use night_ledger.Tokens.Sound.{same_token-same_claims}
use night_ledger.Gate.Execute.{
  World, Purchase, PurchaseDigest, ExecuteCall, ExecuteReply, extract_bearer_token, exp_unix,
  expected_of, refuse, verified, consume, run_purchase, execute_purchase_create,
}
use night_ledger.Gate.Used.{
  proceed-raised, refuse-used, refuse-raises, run_purchase-used, run_purchase-consumed,
}

-- A request to execute a purchase, with the clocks and digits it is served with.
pub record Attempt : Type 0 where
  pub call : ExecuteCall
  pub purchase : Purchase
  pub authorization : Option String

module _ {S : Type 0} (store : EventStore S) (model_validate : EventPayload → Validated)
    (codec : Codec) (env : Environment) (digest : PurchaseDigest) where
  abbrev pub attempt : Attempt → Exec (World S) ExecuteReply
  attempt a =
      execute_purchase_create store model_validate codec env digest a.call a.purchase
        a.authorization

  -- What becomes of the world over requests.
  unfoldable pub attempts : World S → List Attempt → World S
  attempts w [] = w
  attempts w (a ∷ more) = attempts (attempt a w).0 more

  -- The claims of the token in the header of a request, if it passes.
  unfoldable pub verdict : Attempt → Result Claims
  verdict a =
      Errors.◌>>=◌ (extract_bearer_token a.authorization)
        (verify_execution_token codec env a.call.verified_at (expected_of digest a.purchase))

  -- A request with a token that passes consumes it, and goes on with whether it was unused.
  pub attempt-verified :
      (a : Attempt) (w : World S) (claims : Claims)
      → verdict a ≡ ok claims
      → attempt a w ≡ (
          let r = consume_once a.call.replay_clock claims.jti (exp_unix claims.exp) w.used in
          run_purchase store model_validate a.call a.purchase claims r.1 (record w { used = r.0 }))
  unfolding verdict execute_purchase_create verified consume
  attempt-verified a w claims h =
      let (token, given, passed) =
        Errors.>>=-eq-ok (extract_bearer_token a.authorization) (λ _. _) h in
      rw (given, passed) refl

  -- Any other request raises, and consumes nothing.
  pub attempt-refused :
      (a : Attempt) (w : World S) (e : Error)
      → verdict a ≡ raise e
      → ((attempt a w).0.used ≡ w.used) × (is_ok (attempt a w).1 ≡ false)
  unfolding verdict execute_purchase_create verified
  attempt-refused a w e h = by_token (extract_bearer_token a.authorization) h
    where
      served : Claims → Exec (World S) ExecuteReply
      served claims = consume a.call claims >>= λ consumed.
          run_purchase store model_validate a.call a.purchase claims consumed

      goes_on : String → Exec (World S) ExecuteReply
      goes_on token =
          verified store model_validate codec env digest a.call a.purchase token >>= served

      refused : Exec (World S) Claims
      refused = refuse store model_validate a.call a.purchase e

      by_token :
          (o : Result String)
          → Errors.◌>>=◌ o
              (verify_execution_token codec env a.call.verified_at (expected_of digest a.purchase))
            ≡ raise e
          → ((proceed goes_on w o).0.used ≡ w.used) × (is_ok (proceed goes_on w o).1 ≡ false)
      by_token (raise x) k = (refl, refl)
      by_token (ok token) k =
          let (state, raised) =
            proceed-raised served (refused w).0 (refused w).1
              (refuse-raises store model_validate a.call a.purchase e w) in
          rw k (
            ap (λ (v : World S). v.used) state
                ∙ refuse-used store model_validate a.call a.purchase e w,
            raised,
          )

  abbrev request_of : Attempt → Claims → Request
  request_of a claims = record {
    clock = a.call.replay_clock;
    jti = claims.jti;
    exp_unix = exp_unix claims.exp;
  }

  attempt-consumes :
      (a : Attempt) (w : World S) (claims : Claims)
      → verdict a ≡ ok claims
      → (attempt a w).0.used
        ≡ (consume_once a.call.replay_clock claims.jti (exp_unix claims.exp) w.used).0
  attempt-consumes a w claims h =
      ap (λ (r : World S × Result ExecuteReply). r.0.used) (attempt-verified a w claims h)
      ∙ run_purchase-used store model_validate a.call a.purchase claims _ _

  -- A used token does not execute.
  attempt-unconsumed :
      (a : Attempt) (w : World S) (claims : Claims)
      → verdict a ≡ ok claims
      → (consume_once a.call.replay_clock claims.jti (exp_unix claims.exp) w.used).1 ≡ false
      → is_ok (attempt a w).1 ≡ false
  attempt-unconsumed a w claims h k =
      ap (λ (r : World S × Result ExecuteReply). is_ok r.1) (attempt-verified a w claims h)
      ∙ rw k (run_purchase-consumed store model_validate a.call a.purchase claims _)

  pub attempt-consumed :
      (a : Attempt) (w : World S) (claims : Claims)
      → verdict a ≡ ok claims
      → is_ok (attempt a w).1 ≡ true
      → (consume_once a.call.replay_clock claims.jti (exp_unix claims.exp) w.used).1 ≡ true
  attempt-consumed a w claims h executed =
      by_test (consume_once a.call.replay_clock claims.jti (exp_unix claims.exp) w.used).1 refl
    where
      by_test :
          (b : Bool)
          → (consume_once a.call.replay_clock claims.jti (exp_unix claims.exp) w.used).1 ≡ b
          → b ≡ true
      by_test true k = refl
      by_test false k = let failed = attempt-unconsumed a w claims h k in cc

  same_header-same_claims :
      (a b : Attempt) (claims claims' : Claims)
      → verdict a ≡ ok claims
      → verdict b ≡ ok claims'
      → b.authorization ≡ a.authorization
      → claims ≡ claims'
  unfolding verdict
  same_header-same_claims a b claims claims' h k same =
      let (token, given, passed) =
        Errors.>>=-eq-ok (extract_bearer_token a.authorization) (λ _. _) h in
      let (token', given', passed') =
        Errors.>>=-eq-ok (extract_bearer_token b.authorization) (λ _. _) k in
      let tokens = ok-injective (sym given' ∙ ap extract_bearer_token same ∙ given) in
      same_token-same_claims codec env env a.call.verified_at b.call.verified_at
        (expected_of digest a.purchase) (expected_of digest b.purchase) token claims claims' passed
        (rw⁻¹ tokens passed')

  -- What the table becomes over requests is what a sequence of its own requests makes of it.
  attempts-serve :
      (as_of : ℕ) (more : List Attempt) (w : World S)
      → All (λ (a : Attempt). leb a.call.replay_clock.unix as_of ≡ true) more
      → (rs : List Request) × ((attempts w more).used ≡ serve w.used rs)
        × All (λ (r : Request). leb r.clock.unix as_of ≡ true) rs
  unfolding attempts serve
  attempts-serve as_of [] w h = ([], refl, tt)
  attempts-serve as_of (a ∷ more) w h =
      let (rs, table, early) = attempts-serve as_of more (attempt a w).0 h.1 in
      elim (Result-cases (verdict a)) [
        | inl (claims, passed) ↦ (
          request_of a claims ∷ rs,
          table ∙ ap (λ u. serve u rs) (attempt-consumes a w claims passed),
          (h.0, early),
        )
        | inr (e, failed) ↦
            (rs, table ∙ ap (λ u. serve u rs) (attempt-refused a w e failed).0, early)
      ]

  -- If a request executes with a token, no later request with the same header executes, whatever
  -- requests are served in between, as long as the clock of the table is not past the expiry of
  -- the token.
  pub attempt-once :
      (w : World S) (first : Attempt) (between : List Attempt) (again : Attempt) (claims : Claims)
      → is_ok (attempt first w).1 ≡ true
      → verdict first ≡ ok claims
      → again.authorization ≡ first.authorization
      → All (λ a. leb a.call.replay_clock.unix (exp_unix claims.exp) ≡ true) between
      → leb again.call.replay_clock.unix (exp_unix claims.exp) ≡ true
      → is_ok (attempt again (attempts (attempt first w).0 between)).1 ≡ false
  attempt-once w first between again claims executed passed same early soon =
      elim (Result-cases (verdict again)) [
        | inr (e, failed) ↦ (attempt-refused again _ e failed).1
        | inl (claims', passed') ↦
            let (rs, table, before) =
              attempts-serve (exp_unix claims.exp) between (attempt first w).0 early in
            let held = same_header-same_claims first again claims claims' passed passed' same in
            let refused =
              consume_once-once w.used (request_of first claims) rs (request_of again claims')
                (attempt-consumed first w claims passed executed)
                (ap (λ (c : Claims). c.jti) (sym held)) before soon in
            attempt-unconsumed again _ claims' passed' (
              ap
                (λ u. (consume_once again.call.replay_clock claims'.jti (exp_unix claims'.exp) u).1)
                (table ∙ ap (λ u. serve u rs) (attempt-consumes first w claims passed))
              ∙ refused)
      ]
