-- ===== src/Tests/Handlers.antt =====
-- The handlers at concrete inputs: a purchase with an expired token, a run that waits, a request that
-- is not valid, and the reset of the demonstration.
use night_ledger.Prelude.{
  ℕ, String, true, false, ◌≡◌, ◌⊎◌, ◌↔◌, refl, Option, none, some, List, [], ◌∷◌,
}
use night_ledger.Errors.{
  Result, ok, raise, execution_token_expired, execution_token_misconfigured, uncaught,
}
use night_ledger.EventStore.Memory
use night_ledger.EventStore.Memory.{memory_store}
use night_ledger.EventStore.Sqlite
use night_ledger.EventStore.Sqlite.{sqlite_store, database_of}
use night_ledger.EventStore.Sqlite.Contract.{database_of-IsValid}
use night_ledger.Handlers.Seed.{
  triage_inbox_seed_payloads, StoreSettings, Process, in_memory, SeedReply, uses_sqlite,
  configured_path, database_at, reset_seed_triage_inbox_demo,
}
use night_ledger.Handlers.Seeded.{seed_reply, IsSeeded, IsOccupied, reset_seed-by_backend}
use night_ledger.Journal.{RunJournalProjection, project_run_journal}
use night_ledger.Gate.Execute.{execute_purchase_create}
use night_ledger.Gate.Once.{Attempt, verdict}
use night_ledger.Presenter.{plain_detail}
use night_ledger.Presenter.Handle.{handle}
use night_ledger.Presenter.Validation.{present_approval_request_validation_error}
use night_ledger.Presenter.Refusals.{status_of, refusal, refused-answer}
use night_ledger.Handlers.{RunStatusReply, get_run_status, get_run_journal}
use night_ledger.Handlers.Consistent.{get_run_journal-iff-status}
use night_ledger.Tests.{id_digest, as_given}
use night_ledger.Tests.Gate.{test_digest, test_attempt, test_world, waiting}
use night_ledger.Tests.Tokens.{test_env, test_codec}

-- A request that comes 400 seconds after the issue of its token.
abbrev tardy : Attempt
tardy = test_attempt 400 "c1"

refused-answer_example :
    (execute_purchase_create
        (memory_store id_digest)
        as_given
        test_codec
        test_env
        test_digest
        tardy.call
        tardy.purchase
        tardy.authorization
        test_world
      ≡ (
        (refusal
            (memory_store id_digest)
            as_given
            test_codec
            test_env
            test_digest
            tardy
            execution_token_expired
            test_world).0,
        raise
            (refusal
              (memory_store id_digest)
              as_given
              test_codec
              test_env
              test_digest
              tardy
              execution_token_expired
              test_world).1,
      ))
    × ((refusal
          (memory_store id_digest)
          as_given
          test_codec
          test_env
          test_digest
          tardy
          execution_token_expired
          test_world).0.used
        ≡ test_world.used)
    × ((status_of (handle execution_token_expired) ≡ some 403)
        ⊎ (((message : String) × (execution_token_expired ≡ execution_token_misconfigured message)
              × (status_of (handle execution_token_expired) ≡ some 500))
            ⊎ ((name : String) × (execution_token_expired ≡ uncaught name)
                × (handle execution_token_expired ≡ none))))
unfolding verdict night_ledger.Prelude.Text.strip night_ledger.Prelude.Text.drop_chars
    night_ledger.Tokens.Verify.verify_execution_token night_ledger.Prelude.Text.split_on
    night_ledger.Prelude.Dict.lookup night_ledger.Tokens.Mint.token_payload
    night_ledger.Prelude.Text.is_blank night_ledger.Tokens.Keys.configured_execution_token_key_map
    night_ledger.Prelude.Text.has_char night_ledger.Prelude.Text.split_once
    night_ledger.Prelude.Text.char_count night_ledger.Prelude.Dict.insert
    night_ledger.Prelude.Text.is_ascii night_ledger.Gate.Execute.extract_bearer_token
    night_ledger.Prelude.Time.unix night_ledger.Gate.Execute.expected_of
    night_ledger.Tokens.RoundTrip.claims_of night_ledger.Prelude.Time.of_unix
    night_ledger.Prelude.Time.format_timestamp
refused-answer_example =
    refused-answer (memory_store id_digest) as_given test_codec test_env test_digest tardy
      test_world execution_token_expired refl

-- The details of a request with two errors, sorted, with the rules they are of.
sorted_details :
    present_approval_request_validation_error (
      record { loc = "body" ∷ "decision" ∷ []; msg = "Field required"; type = "missing" }
      ∷ record { loc = "query" ∷ "x" ∷ []; msg = "no"; type = "extra" }
      ∷ record { loc = "body" ∷ "approver_id" ∷ []; msg = "Field required"; type = "missing" }
      ∷ [])
    ≡ record {
      code = "REQUEST_VALIDATION_ERROR";
      message = "Approval request payload failed validation";
      rule_ids = some ("RULE-GATE-004" ∷ "RULE-GATE-007" ∷ []);
      details =
          plain_detail "approver_id" "Field required" "missing" "MISSING_APPROVER_ID"
          ∷ plain_detail "decision" "Field required" "missing" "MISSING_APPROVAL_DECISION"
          ∷ [];
    }
unfolding present_approval_request_validation_error night_ledger.Prelude.Sort.sort_by
    night_ledger.Prelude.distinct night_ledger.Prelude.text_leb night_ledger.Prelude.any
sorted_details = refl

abbrev journal_of : Result RunJournalProjection → RunJournalProjection
journal_of (ok journal) = journal
journal_of (raise e) = record { run_id = ""; entries = [] }

abbrev waiting_journal : RunJournalProjection
waiting_journal = journal_of (project_run_journal "run_1" (Memory.list_by_run_id waiting "run_1"))

get_run_journal-iff-status_example :
    (get_run_journal (memory_store id_digest) "run_1" waiting ≡ ok waiting_journal) ↔ (
      (project_run_journal "run_1" (Memory.list_by_run_id waiting "run_1") ≡ ok waiting_journal)
      × ((reply : RunStatusReply) × (get_run_status (memory_store id_digest) "run_1" waiting
            ≡ ok reply)))
get_run_journal-iff-status_example =
    get_run_journal-iff-status (memory_store id_digest) "run_1" waiting waiting_journal

abbrev reset : StoreSettings → Process → Process × Result SeedReply
reset = reset_seed_triage_inbox_demo id_digest as_given

-- A process that has read and appended before.
abbrev busy : Process
busy = record { event_store = some (in_memory waiting); files = [] }

abbrev in_memory_settings : StoreSettings
in_memory_settings = record { backend = none; db_path = none }

-- The reset forgets what the in-memory store held.
memory_reset : (reset in_memory_settings busy).1 ≡ ok seed_reply
unfolding triage_inbox_seed_payloads reset_seed_triage_inbox_demo uses_sqlite
    night_ledger.Prelude.Text.strip night_ledger.Ingest.validate_event_payload Memory.append
    Memory.contains Memory.commit Memory.to_stored_event Memory.new_record Memory.later_timestamp
    night_ledger.EventStore.build_event_hash night_ledger.Prelude.Dict.lookup
    night_ledger.Prelude.Dict.insert night_ledger.Prelude.any
memory_reset = refl

abbrev sqlite_settings : StoreSettings
sqlite_settings = record { backend = some " SQLite "; db_path = some "/data/events.db" }

-- The file was seeded before the process started.
abbrev restarted : Process
restarted = record {
  event_store = none;
  files = ("/data/events.db", database_of id_digest triage_inbox_seed_payloads) ∷ [];
}

reset_seed-by_backend_example :
    ((uses_sqlite sqlite_settings ≡ false) × IsSeeded id_digest as_given sqlite_settings restarted)
    ⊎ ((uses_sqlite sqlite_settings ≡ true)
        × IsOccupied id_digest as_given sqlite_settings restarted)
unfolding triage_inbox_seed_payloads database_at configured_path uses_sqlite
    night_ledger.Prelude.Text.strip night_ledger.Prelude.Dict.lookup Sqlite.append Sqlite.append_all
    Sqlite.to_stored_event Sqlite.new_row Sqlite.last_row Sqlite.list_by_run_id Sqlite.row_leb
    night_ledger.EventStore.build_event_hash night_ledger.Prelude.Sort.sort_by
    night_ledger.Prelude.any night_ledger.Prelude.filter night_ledger.Prelude.get_last?
reset_seed-by_backend_example =
    reset_seed-by_backend id_digest as_given sqlite_settings restarted (refl, (refl, (refl, tt)))
      (database_of-IsValid id_digest triage_inbox_seed_payloads) (λ _. refl)
