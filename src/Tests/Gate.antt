-- ===== src/Tests/Gate.antt =====
-- The execution gate at concrete inputs: an approved purchase.
use night_ledger.Prelude.{
  ℕ, ◌+◌, ◌*◌, String, Bool, true, false, ◌≡◌, refl, Option, none, some, List, [], ◌∷◌, ◌++◌, arith,
  leb, ltb, subst, All, filter,
}
use night_ledger.Prelude.Time.{demo_time, second, milliseconds, format_timestamp, unix}
use night_ledger.Schema.{EventPayload, StoredEvent, error}
use night_ledger.Errors.{Result, ok, raise, is_ok}
use night_ledger.EventStore.Memory
use night_ledger.EventStore.Memory.{memory_store, store_of}
use night_ledger.EventStore.Memory.Invariant.{store_of-IsValid}
use night_ledger.EventStore.Memory.Invariant
use night_ledger.EventStore.Memory.Contract.{memory_store-IsEventStore}
use night_ledger.Ingest.{Validated, valid}
use night_ledger.Replay.{no_tokens, consume_once}
use night_ledger.Approval.{DecisionState, get_approval_decision_state}
use night_ledger.RunStatus.{completed, project_run_status}
use night_ledger.Gate.{Call, Receipt, receipt_event, append_runtime_receipt}
use night_ledger.Gate.Execute.{
  World, Purchase, PurchaseDigest, ExecuteCall, extract_bearer_token, execute_purchase_create,
}
use night_ledger.Gate.Mint.{MintPayload, MintCall, mint_execution_token_for_decision}
use night_ledger.Gate.Once.{Attempt, attempt, attempts, verdict, attempt-once}
use night_ledger.Gate.Path.{approved-executes}
use night_ledger.Gate.Receipts.{IsChronological, observed, receipt-last, receipt-projected}
use night_ledger.Tests.{triage, asking, granting, finishing, id_digest, stored_as, as_given}
use night_ledger.Tests.Tokens.{
  test_secret, test_env, test_codec, test_claims, test_keys, test-Carries,
}

-- The amount stands for the hash.
abbrev pub test_digest : PurchaseDigest
test_digest purchase = purchase.amount

abbrev pub test_world : World Memory.Memory
test_world = record {
  events = store_of id_digest (triage ∷ asking ∷ granting ∷ []);
  used = no_tokens;
}

abbrev test_purchase : Purchase
test_purchase = record { run_id = none; amount = "10.0"; currency = "EUR"; merchant = "Shop" }

abbrev test_call : ℕ → String → ExecuteCall
test_call later uuid = record {
  verified_at = demo_time + later * second;
  replay_clock = record { unix = unix (demo_time + later * second); iso = "" };
  uuid16 = uuid;
  executed_at = demo_time + later * second;
  receipt = record { now = demo_time + later * second; uuid16 = uuid };
}

abbrev pub test_attempt : ℕ → String → Attempt
test_attempt later uuid = record {
  call = test_call later uuid;
  purchase = test_purchase;
  authorization = some "bearer  eyJ9.c2ln ";
}

test_executed :
    is_ok
      (attempt
        (memory_store id_digest)
        as_given
        test_codec
        test_env
        test_digest
        (test_attempt 10 "a1")
        test_world).1
    ≡ true
unfolding execute_purchase_create consume_once append_runtime_receipt receipt_event
    night_ledger.Prelude.Text.strip night_ledger.Prelude.Text.drop_chars
    night_ledger.Tokens.Verify.verify_execution_token night_ledger.Prelude.Text.split_on
    night_ledger.Prelude.Dict.lookup night_ledger.Tokens.Mint.token_payload
    night_ledger.Prelude.Text.is_blank night_ledger.Tokens.Keys.configured_execution_token_key_map
    night_ledger.Prelude.Text.has_char night_ledger.Prelude.Text.split_once
    night_ledger.Prelude.Text.char_count night_ledger.Prelude.Dict.insert
    night_ledger.Prelude.Text.is_ascii extract_bearer_token unix
    night_ledger.Gate.Execute.expected_of night_ledger.Tokens.RoundTrip.claims_of
    night_ledger.Prelude.Time.of_unix format_timestamp filter
    night_ledger.Ingest.validate_event_payload Memory.append Memory.contains Memory.append_all
    Memory.commit Memory.to_stored_event Memory.new_record Memory.later_timestamp
    Memory.list_by_run_id Memory.records Memory.key_leb night_ledger.EventStore.build_event_hash
    night_ledger.Prelude.Sort.sort_by night_ledger.Prelude.get_last? night_ledger.Prelude.any
    night_ledger.Prelude.text_leb
test_executed = refl

test_passed :
    verdict (memory_store id_digest) as_given test_codec test_env test_digest (test_attempt 10 "a1")
    ≡ ok test_claims
unfolding verdict night_ledger.Prelude.Text.strip night_ledger.Prelude.Text.drop_chars
    night_ledger.Tokens.Verify.verify_execution_token night_ledger.Prelude.Text.split_on
    night_ledger.Prelude.Dict.lookup night_ledger.Tokens.Mint.token_payload
    night_ledger.Prelude.Text.is_blank night_ledger.Tokens.Keys.configured_execution_token_key_map
    night_ledger.Prelude.Text.has_char night_ledger.Prelude.Text.split_once
    night_ledger.Prelude.Text.char_count night_ledger.Prelude.Dict.insert
    night_ledger.Prelude.Text.is_ascii extract_bearer_token unix
    night_ledger.Gate.Execute.expected_of night_ledger.Tokens.RoundTrip.claims_of
    night_ledger.Prelude.Time.of_unix format_timestamp
test_passed = refl

attempt-once_example :
    is_ok
      (attempt
        (memory_store id_digest)
        as_given
        test_codec
        test_env
        test_digest
        (test_attempt 30 "a3")
        (attempts
          (memory_store id_digest)
          as_given
          test_codec
          test_env
          test_digest
          (attempt
            (memory_store id_digest)
            as_given
            test_codec
            test_env
            test_digest
            (test_attempt 10 "a1")
            test_world).0
          (test_attempt 20 "a2" ∷ []))).1
    ≡ false
unfolding unix night_ledger.Tokens.RoundTrip.claims_of
attempt-once_example =
    attempt-once (memory_store id_digest) as_given test_codec test_env test_digest test_world
      (test_attempt 10 "a1") (test_attempt 20 "a2" ∷ []) (test_attempt 30 "a3") test_claims
      test_executed test_passed refl (refl, tt) refl

abbrev test_state : DecisionState
test_state = record {
  decision_id = "dec_1";
  run_id = "run_1";
  status = night_ledger.Schema.approved;
  requested_event_id = some "evt_2";
  resolved_event_id = some "evt_3";
  requested_at = some (format_timestamp (demo_time + milliseconds 1));
  resolved_at = some (demo_time + milliseconds 2);
  requested_by = some "agent";
  resolved_by = some "ada";
  reason = none;
}

abbrev test_payload : MintPayload
test_payload = record { amount = "10.0"; currency = "EUR"; merchant = "Shop" }

abbrev test_mint : MintCall
test_mint = record {
  issued_at = demo_time;
  uuid = "0f";
  receipt = record { now = demo_time; uuid16 = "m1" };
}

test_known :
    get_approval_decision_state (memory_store id_digest) test_world.events "dec_1" ≡ ok test_state
unfolding get_approval_decision_state night_ledger.Approval.decision_state
    night_ledger.Approval.first_request night_ledger.Approval.is_pending_signal
    night_ledger.Approval.is_resolution_signal night_ledger.Approval.last_resolution
    night_ledger.Approval.state_of_events Memory.list_all Memory.flatten
    night_ledger.Prelude.Dict.values night_ledger.Prelude.find? filter Memory.append Memory.contains
    Memory.append_all Memory.commit Memory.to_stored_event Memory.new_record Memory.later_timestamp
    Memory.list_by_run_id Memory.records Memory.key_leb night_ledger.EventStore.build_event_hash
    night_ledger.Prelude.Sort.sort_by night_ledger.Prelude.get_last? night_ledger.Prelude.any
    night_ledger.Prelude.Dict.lookup night_ledger.Prelude.Dict.insert night_ledger.Prelude.text_leb
test_known = refl

test_given : extract_bearer_token (some "bearer  eyJ9.c2ln ") ≡ ok "eyJ9.c2ln"
unfolding extract_bearer_token night_ledger.Prelude.Text.strip night_ledger.Prelude.Text.drop_chars
test_given = refl

approved-executes_example :
    ((mint_execution_token_for_decision
        (memory_store id_digest)
        as_given
        test_codec
        test_env
        test_digest
        test_mint
        "dec_1"
        test_payload
        test_world.events).1
      ≡ ok (record {
        decision_id = "dec_1";
        action = "purchase.create";
        execution_token = "eyJ9.c2ln";
        expires_at = format_timestamp (demo_time + 300 * second);
      }))
    × (is_ok
          (execute_purchase_create
            (memory_store id_digest)
            as_given
            test_codec
            test_env
            test_digest
            (test_call 10 "a1")
            test_purchase
            (some "bearer  eyJ9.c2ln ")
            test_world).1
        ≡ true)
unfolding night_ledger.Gate.Mint.request_for night_ledger.Tokens.Mint.expiry
    night_ledger.Tokens.configured_execution_token_ttl_seconds night_ledger.Tokens.Mint.signed_token
    unix consume_once filter Memory.append Memory.contains Memory.append_all Memory.commit
    Memory.to_stored_event Memory.new_record Memory.later_timestamp Memory.list_by_run_id
    Memory.records Memory.key_leb night_ledger.EventStore.build_event_hash
    night_ledger.Prelude.Sort.sort_by night_ledger.Prelude.get_last? night_ledger.Prelude.any
    night_ledger.Prelude.Dict.lookup night_ledger.Prelude.Dict.insert night_ledger.Prelude.text_leb
    night_ledger.Gate.Execute.claim_run_id night_ledger.Tokens.RoundTrip.claims_of
    night_ledger.Prelude.Text.is_blank night_ledger.Prelude.Text.strip
approved-executes_example =
    approved-executes (memory_store id_digest) Invariant.IsValid
      (memory_store-IsEventStore id_digest) as_given test_codec test_env test_digest "dec_1"
      test_state test_payload test_mint "v2" test_secret test_world.events test_world
      (test_call 10 "a1") none (some "bearer  eyJ9.c2ln ")
      (store_of-IsValid id_digest (triage ∷ asking ∷ granting ∷ []))
      (store_of-IsValid id_digest (triage ∷ asking ∷ granting ∷ [])) refl refl test_known refl
      test_keys test-Carries refl test_given (omega arith) refl refl refl

-- A receipt of a blocked purchase in a run that waits for an approval.
abbrev test_receipt : Receipt
test_receipt = record {
  run_id = "run_1";
  event_type = error;
  title = "purchase.create blocked";
  details = "code=EXECUTION_TOKEN_INVALID";
  decision_id = none;
  step = "execution_blocked";
}

abbrev early_call : Call
early_call = record { now = demo_time; uuid16 = "e1" }

abbrev pub waiting : Memory.Memory
waiting = store_of id_digest (triage ∷ asking ∷ [])

abbrev waiting_run : List StoredEvent
waiting_run = Memory.list_by_run_id waiting "run_1"

abbrev test_stored : Result StoredEvent → StoredEvent
test_stored (ok e) = e
test_stored (raise e) = stored_as triage

abbrev early_event : StoredEvent
early_event =
    test_stored
      (append_runtime_receipt (memory_store id_digest) as_given early_call test_receipt waiting).1

some-injective : {a b : StoredEvent} → some a ≡ some b → a ≡ b
some-injective h = cc

waiting-IsChronological : IsChronological waiting_run
unfolding night_ledger.Prelude.get_last? Memory.list_by_run_id night_ledger.Prelude.Sort.sort_by
    Memory.records night_ledger.Prelude.Dict.lookup Memory.append_all Memory.append Memory.contains
    Memory.commit night_ledger.Prelude.Dict.insert Memory.key_leb Memory.new_record
    Memory.to_stored_event
waiting-IsChronological last found =
    subst
      (λ (x : StoredEvent).
        All (λ (y : StoredEvent). leb y.timestamp x.timestamp ≡ true) waiting_run)
      (some-injective found) (refl, (refl, tt))

early-stored :
    (append_runtime_receipt (memory_store id_digest) as_given early_call test_receipt waiting).1
    ≡ ok early_event
unfolding append_runtime_receipt night_ledger.Ingest.validate_event_payload Memory.append
    Memory.contains Memory.append_all Memory.commit Memory.to_stored_event Memory.new_record
    Memory.later_timestamp Memory.list_by_run_id Memory.records Memory.key_leb
    night_ledger.EventStore.build_event_hash night_ledger.Prelude.Sort.sort_by
    night_ledger.Prelude.get_last? night_ledger.Prelude.any night_ledger.Prelude.Dict.lookup
    night_ledger.Prelude.Dict.insert night_ledger.Prelude.text_leb
early-stored = refl

receipt-last_example :
    (Memory.list_by_run_id
        (append_runtime_receipt (memory_store id_digest) as_given early_call test_receipt waiting).0
        "run_1"
      ≡ waiting_run ++ early_event ∷ [])
    × (early_event.payload ≡ receipt_event early_call test_receipt waiting_run)
    × IsChronological (
        Memory.list_by_run_id
          (append_runtime_receipt
            (memory_store id_digest)
            as_given
            early_call
            test_receipt
            waiting).0
          "run_1")
receipt-last_example =
    receipt-last (memory_store id_digest) Invariant.IsValid (memory_store-IsEventStore id_digest)
      as_given early_call test_receipt waiting early_event
      (store_of-IsValid id_digest (triage ∷ asking ∷ [])) refl waiting-IsChronological early-stored

-- In a run that waits, and in one that has ended.
abbrev blocked_in : List StoredEvent → StoredEvent
blocked_in events = stored_as (receipt_event early_call test_receipt events)

abbrev ended_run : List StoredEvent
ended_run = stored_as triage ∷ stored_as finishing ∷ []

receipt-projected_example :
    project_run_status (ended_run ++ blocked_in ended_run ∷ [])
    ≡ observed (record { status = completed; pending_approval = none })
unfolding project_run_status night_ledger.RunStatus.terminal_step_status night_ledger.RunStatus.step
    night_ledger.RunStatus.to_terminal_status night_ledger.RunStatus.advance
    night_ledger.RunStatus.is_resolution_signal night_ledger.RunStatus.is_pending_signal
    night_ledger.RunStatus.observe
receipt-projected_example =
    receipt-projected ended_run (blocked_in ended_run) early_call test_receipt
      (record { status = completed; pending_approval = none }) refl refl refl refl
