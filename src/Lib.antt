-- ===== src/Lib.antt =====
-- Night Ledger: an append-only ledger of what agents do, with human approval of risky steps.
--
-- The program is a Python service, src/nightledger_api. Events are validated against a schema,
-- checked against the business rules of their run, and appended to a store that chains them by
-- hashes. Projections read a run back: its workflow status, its journal, the approvals that are
-- pending, the audit export of a decision. Approvals are registered and resolved through the same
-- store. The parts, by their paths under src/nightledger_api, and the files that model them:
--   * models/event_schema.py is Schema: `Literal` types are data types, pydantic models records.
--   * services/errors.py is Errors: the exceptions are the constructors of `Error`, and code that
--     only reads returns a `Result`. Code that writes is an `Exec` (Exec): what was written before
--     an exception stays written.
--   * services/event_store.py is EventStore: the protocol as a record of its three methods, its
--     contract `IsEventStore` (EventStore/Contract), the in-memory store (EventStore/Memory) and
--     the SQLite store (EventStore/Sqlite), which are compared in EventStore/Warnings. The services
--     below take any store of the protocol, and their theorems the contract.
--   * services/run_status_service.py is RunStatus: the loop of `project_run_status` is
--     `project_from`, its body `step`, its local variables `Progress`. RunStatus/Machine is the
--     state machine of a run as a relation.
--   * services/business_rules_service.py is BusinessRules: a function for each group of violations
--     of `validate_event_business_rules`, in its order. BusinessRules/Projectable and
--     BusinessRules/Unprojectable are about the projection after an admitted event.
--   * services/event_ingest_service.py and `ingest_event` of controllers/events_controller.py are
--     Ingest.
--   * services/approval_service.py is Approval: the signals and the decision state in the module
--     itself, the drafts of events in Approval/Drafts, the continuation of the demonstration in
--     Approval/Continuation, the resolution in Approval/Resolve, the registration in
--     Approval/Register, the list of pending approvals in Approval/Queue.
--   * services/audit_export_service.py is Audit.
--   * services/journal_projection_service.py is Journal.
--   * services/execution_replay_store.py is Replay.
--   * services/execution_token_service.py is Tokens: the configuration in the module itself and in
--     Tokens/Keys, `mint_execution_token` in Tokens/Mint, `verify_execution_token` in Tokens/Verify.
--   * services/authorize_action_service.py is Authorize: the decision in the module itself, the
--     reading of the rules in Authorize/Rules, the repository of the file in Authorize/Repository.
--   * The execution gate of controllers/events_controller.py is Gate: the receipts in the module
--     itself, `execute_purchase_create` in Gate/Execute, `mint_execution_token_for_decision` in
--     Gate/Mint, `authorize_action` in Gate/Authorize.
--   * The other handlers of controllers/events_controller.py are Handlers, the seed of the
--     demonstration and the choice of the store by the environment Handlers/Seed.
--   * presenters/error_presenter.py is Presenter, with the refused requests in Presenter/Validation;
--     the exception handlers of main.py are Presenter/Handle.
-- Prelude has what the parts share: tests on numbers, lists, dicts, texts, times and stable sorts.
-- Tests applies the theorems to a run that asks for approval.
--
-- Parameters. The SHA-256 of the canonical JSON text of the hashed fields is a `Digest`. pydantic's
-- `model_validate` is a function of the raw payload; a draft of the services stands for its dict.
-- The clock, the random hexadecimal texts and the elapsed time of a call are its `Call`; a handler
-- that reads the clock more than once has a time for each. HMAC, base64 and JSON of the tokens are a
-- `Codec`, the environment's variables an `Environment`, the hash of a purchase a `PurchaseDigest`.
-- The rules that were loaded from the file and what their expressions evaluate to are arguments of
-- the decision; the file system and YAML are the `Files` of their repository.
--
-- Simplifications. The payload of a stored event is the validated event, so the code for missing
-- keys and values of other types is left out. A `datetime` is a number of microseconds, and sums
-- do not overflow; the confidence of an event is the text of its number; `resolved_at` is only
-- copied. The milliseconds of a time span are exact, where the source goes through a float. A
-- column of the SQLite tables holds the value that its text stands for, and each method is one
-- transaction. A call of `consume_once` is one step, though it takes its lock twice. All loops are
-- structural recursions on lists; the digits of an index have the index itself as fuel, or one
-- more, which is at least the number of its digits. The clock of the tokens is past 1970, and
-- their times are within the years that `datetime` has. An amount is the text of its number.
--
-- Not modelled: the expressions of the rules and the policy catalog of
-- services/authorize_action_service.py, the logs, the wiring of main.py, the MCP servers (protocols
-- over HTTP and standard input), and apps/web.
pub mod Prelude
pub mod Schema
pub mod Errors
pub mod RunStatus
pub mod EventStore
pub mod Audit
pub mod BusinessRules
pub mod Exec
pub mod Ingest
pub mod Approval
pub mod Journal
pub mod Replay
pub mod Tests
pub mod Tokens
pub mod Authorize
pub mod Gate
pub mod Presenter
pub mod Handlers
