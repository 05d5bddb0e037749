-- ===== src/Handlers/Seed.antt =====
-- controllers/events_controller.py: the seed of the demonstration, and the store object that the
-- process holds. A new in-memory object is empty, one of SQLite opens the file that is there.
use Prim.Native.Char.{code}
use night_ledger.Prelude.{
  ℕ, ◌+◌, ◌*◌, String, Bool, true, false, ◌&&◌, Option, some, none, List, [], ◌∷◌, length, ◌==◌,
  str_eq, if◌then◌else◌,
}
use night_ledger.Prelude.Dict.{Dict, lookup, insert}
use night_ledger.Prelude.Text.{strip}
use night_ledger.Prelude.Time.{Datetime, second}
use night_ledger.Schema.{
  EventPayload, intent, action, approval_requested, agent, low, medium, high, Approval,
  not_required, pending, log, diff, artifact,
}
use night_ledger.Errors.{Result, Error, schema_validation, duplicate_event, storage_write}
use night_ledger.Exec.{Exec, lift, pure, ◌>>=◌}
use night_ledger.EventStore.{Digest, EventStore}
use night_ledger.EventStore.Memory
use night_ledger.EventStore.Memory.{Memory, memory_store}
use night_ledger.EventStore.Sqlite.{Database, created, sqlite_store}
use night_ledger.Gate.Execute.{lower}
use night_ledger.Ingest.{Validated, validate_event_payload}
use night_ledger.Handlers.{filtered}

-- 2026-02-16T08:00:00Z is on the day 739663.
abbrev pub seed_time : Datetime
seed_time = (739662 * 86400 + 28800) * second

abbrev pub seed_run : String
seed_run = "run_triage_inbox_demo_1"

abbrev pub unasked : Approval
unasked = record {
  status = not_required;
  decision_id = none;
  requested_by = none;
  resolved_by = none;
  resolved_at = none;
  reason = none;
}

abbrev pub first_payload : EventPayload
first_payload = record {
  id = "evt_triage_inbox_001";
  run_id = seed_run;
  timestamp = seed_time;
  type = intent;
  actor = agent;
  title = "Begin triage_inbox run";
  details = "Agent starts inbox triage workflow.";
  confidence = some "0.92";
  risk_level = some low;
  requires_approval = false;
  approval = unasked;
  evidence = record { kind = log; label = "Workflow start"; ref = "log://triage-inbox/001" } ∷ [];
  meta = some (record { workflow = "triage_inbox"; step = "start" });
}

-- `_triage_inbox_seed_payloads`
unfoldable pub triage_inbox_seed_payloads : List EventPayload
triage_inbox_seed_payloads =
    first_payload
    ∷ record {
      id = "evt_triage_inbox_002";
      run_id = seed_run;
      timestamp = seed_time + 10 * second;
      type = action;
      actor = agent;
      title = "Draft high-priority response";
      details = "Agent drafts a response and flags potential refund action.";
      confidence = some "0.87";
      risk_level = some medium;
      requires_approval = false;
      approval = unasked;
      evidence =
          record { kind = diff; label = "Draft response diff"; ref = "diff://triage-inbox/002" }
          ∷ [];
      meta = some (record { workflow = "triage_inbox"; step = "draft_response" });
    }
    ∷ record {
      id = "evt_triage_inbox_003";
      run_id = seed_run;
      timestamp = seed_time + 20 * second;
      type = approval_requested;
      actor = agent;
      title = "Approval required before sending refund";
      details = "Refund exceeds auto-approval threshold and requires human sign-off.";
      confidence = some "0.81";
      risk_level = some high;
      requires_approval = true;
      approval = record {
        status = pending;
        decision_id = none;
        requested_by = some "agent";
        resolved_by = none;
        resolved_at = none;
        reason = some "Refund amount exceeds policy threshold";
      };
      evidence =
          record {
            kind = artifact;
            label = "Refund request packet";
            ref = "artifact://triage-inbox/003";
          }
          ∷ [];
      meta = some (record { workflow = "triage_inbox"; step = "approval_gate" });
    }
    ∷ []

pub record SeedReply : Type 0 where
  pub event_count : ℕ
  pub seeded_event_ids : List String

-- The exceptions that pass.
abbrev pub seed_error : Error → Error
seed_error (schema_validation details) = schema_validation details
seed_error (duplicate_event event_id run_id) = duplicate_event event_id run_id
seed_error (storage_write message) = storage_write message
seed_error _ = storage_write "demo reset-seed failed"

module _ {S : Type 0} (store : EventStore S) (model_validate : EventPayload → Validated) where
  -- The loop of the `try`.
  unfoldable pub append_payloads : List EventPayload → Exec S (List String)
  append_payloads [] = pure []
  append_payloads (payload ∷ payloads) = do
    event ← lift (validate_event_payload model_validate payload)
    stored ← (λ s. store.append s event)
    ids ← append_payloads payloads
    pure (stored.id ∷ ids)

  -- The seed of a store.
  unfoldable pub seed_triage_inbox : Exec S SeedReply
  unfolding append_payloads triage_inbox_seed_payloads
  seed_triage_inbox = filtered seed_error (append_payloads triage_inbox_seed_payloads) >>= λ ids.
      pure (record { event_count = length ids; seeded_event_ids = ids })

-- The variables of the environment that choose the store, if they are set.
pub record StoreSettings : Type 0 where
  pub backend : Option String
  pub db_path : Option String

-- An object of one of the two classes.
pub data StoreObject : Type 0 where
  in_memory : Memory → StoreObject
  on_file : String → StoreObject

-- The global `_event_store`, and the databases in the files, by their paths.
pub record Process : Type 0 where
  pub event_store : Option StoreObject
  pub files : Dict Database

-- `s.lower() == text`, for a text of small ASCII letters other than k
unfoldable pub equals_lower : String → String → Bool
equals_lower String.[] String.[] = true
equals_lower String.[] (String.◌∷◌ t text) = false
equals_lower (String.◌∷◌ c s) String.[] = false
equals_lower (String.◌∷◌ c s) (String.◌∷◌ t text) = lower (code c) == code t && equals_lower s text

abbrev pub or_default : String → Option String → String
or_default default none = default
or_default default (some value) = value

abbrev pub default_db_path : String
default_db_path = "/tmp/nightledger_events.db"

-- `path or _DEFAULT_EVENT_STORE_DB_PATH`
abbrev pub path_or_default : String → String
path_or_default path = if str_eq path "" then default_db_path else path

unfoldable pub uses_sqlite : StoreSettings → Bool
unfolding equals_lower
uses_sqlite settings = equals_lower (strip (or_default "memory" settings.backend)) "sqlite"

unfoldable pub configured_path : StoreSettings → String
configured_path settings = path_or_default (strip (or_default default_db_path settings.db_path))

unfoldable pub build_event_store : StoreSettings → StoreObject
unfolding uses_sqlite configured_path
build_event_store settings =
    if uses_sqlite settings then on_file (configured_path settings) else in_memory Memory.empty

unfoldable pub get_event_store : StoreSettings → Process → Process × StoreObject
unfolding build_event_store
get_event_store settings process = elim process.event_store [
  | some object ↦ (process, object)
  | none ↦
      let built = build_event_store settings in (record process { event_store = some built }, built)
]

-- The table is made unless it exists.
abbrev pub opened : Option Database → Database
opened none = created
opened (some db) = db

unfoldable pub database_at : String → Process → Database
database_at path process = opened (lookup path process.files)

module _ (digest : Digest) (model_validate : EventPayload → Validated) where
  -- The seed of the object that was built, which the process keeps.
  abbrev pub seed_object : StoreObject → Process → Process × Result SeedReply
  seed_object (in_memory memory) process =
      let r = seed_triage_inbox (memory_store digest) model_validate memory in
      (record process { event_store = some (in_memory r.0) }, r.1)
  seed_object (on_file path) process =
      let r = seed_triage_inbox (sqlite_store digest) model_validate (database_at path process) in
      (record { event_store = some (on_file path); files = insert path r.0 process.files }, r.1)

  -- `_reset_event_store` and then the seed
  unfoldable pub reset_seed_triage_inbox_demo : StoreSettings → Process → Process × Result SeedReply
  unfolding build_event_store database_at seed_triage_inbox
  reset_seed_triage_inbox_demo settings = seed_object (build_event_store settings)
