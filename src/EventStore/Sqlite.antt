-- ===== src/EventStore/Sqlite.antt =====
-- `SQLiteAppendOnlyEventStore` of services/event_store.py: the table `events` as the list of its
-- rows in the order of their sequence, and the greatest sequence that AUTOINCREMENT gave out. Its
-- JSON and timestamp columns hold the values that their texts stand for.
pub mod Contract
use night_ledger.Prelude.{
  ℕ, ◌+◌, String, Bool, true, false, ◌&&◌, Option, none, some, List, [], ◌∷◌, ◌++◌, map, filter,
  any, get_last?, ltb, ◌==◌, str_eq, if◌then◌else◌,
}
use night_ledger.Prelude.Time.{Datetime, isoformat}
use night_ledger.Prelude.Sort.{sort_by}
use night_ledger.Schema.{EventPayload, StoredEvent}
use night_ledger.Errors.{Result, ok, raise, duplicate_event}
use night_ledger.EventStore.{Digest, build_event_hash, EventStore}

pub record Row : Type 0 where
  pub sequence : ℕ
  pub run_id : String
  pub event_id : String
  pub timestamp : Datetime
  pub payload : EventPayload
  pub integrity_warning : Bool
  pub prev_hash : Option String
  pub hash : Option String

pub record Database : Type 0 where
  pub rows : List Row
  pub last_sequence : ℕ

abbrev pub created : Database
created = record { rows = []; last_sequence = 0 }

abbrev pub of_run : String → Row → Bool
of_run run_id row = str_eq row.run_id run_id

-- UNIQUE(run_id, event_id)
abbrev pub same_event : EventPayload → Row → Bool
same_event event row = str_eq row.run_id event.run_id && str_eq row.event_id event.id

abbrev pub text_or_empty : Option String → String
text_or_empty none = ""
text_or_empty (some s) = s

unfoldable pub to_stored_event : Row → StoredEvent
to_stored_event row = record {
  id = row.event_id;
  timestamp = row.timestamp;
  run_id = row.run_id;
  payload = row.payload;
  integrity_warning = row.integrity_warning;
  prev_hash = row.prev_hash;
  hash = text_or_empty row.hash;
}

-- `ORDER BY timestamp ASC, sequence ASC`
unfoldable pub row_leb : Row → Row → Bool
row_leb a b =
    if ltb a.timestamp b.timestamp
    then true
    else if a.timestamp == b.timestamp
    then (if ltb b.sequence a.sequence then false else true)
    else false

abbrev pub is_older_than_row : Datetime → Option Row → Bool
is_older_than_row t none = false
is_older_than_row t (some row) = ltb t row.timestamp

abbrev pub row_hash : Option Row → Option String
row_hash none = none
row_hash (some row) = row.hash

-- `WHERE run_id = ? ORDER BY sequence DESC LIMIT 1`
unfoldable pub last_row : Database → String → Option Row
last_row db run_id = get_last? (filter (of_run run_id) db.rows)

unfoldable pub new_row : Digest → Database → EventPayload → Row
new_row digest db event =
    let integrity_warning = is_older_than_row event.timestamp (last_row db event.run_id) in
    let prev_hash = row_hash (last_row db event.run_id) in
    record {
      sequence = db.last_sequence + 1;
      run_id = event.run_id;
      event_id = event.id;
      timestamp = event.timestamp;
      payload = event;
      integrity_warning = integrity_warning;
      prev_hash = prev_hash;
      hash = some (
          build_event_hash digest (record {
            run_id = event.run_id;
            event_id = event.id;
            timestamp = isoformat event.timestamp;
            payload = event;
            integrity_warning = integrity_warning;
            prev_hash = prev_hash;
          }));
    }

-- The INSERT fails on the UNIQUE constraint, and the transaction leaves the table as it was.
unfoldable pub append : Digest → Database → EventPayload → Database × Result StoredEvent
append digest db event =
    if any (same_event event) db.rows
    then (db, raise (duplicate_event event.id event.run_id))
    else (
      record {
        rows = db.rows ++ new_row digest db event ∷ [];
        last_sequence = db.last_sequence + 1;
      },
      ok (to_stored_event (new_row digest db event)),
    )

unfoldable pub list_by_run_id : Database → String → List StoredEvent
list_by_run_id db run_id = map to_stored_event (sort_by row_leb (filter (of_run run_id) db.rows))

unfoldable pub list_all : Database → List StoredEvent
list_all db = map to_stored_event (sort_by row_leb db.rows)

abbrev pub sqlite_store : Digest → EventStore Database
sqlite_store digest = record {
  append = append digest;
  list_by_run_id = list_by_run_id;
  list_all = list_all;
}

-- The database after these calls of `append`, whether they stored or raised.
unfoldable pub append_all : Digest → Database → List EventPayload → Database
append_all digest db [] = db
append_all digest db (event ∷ events) = append_all digest (append digest db event).0 events

abbrev pub database_of : Digest → List EventPayload → Database
database_of digest events = append_all digest created events
