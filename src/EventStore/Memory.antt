-- ===== src/EventStore/Memory.antt =====
-- `InMemoryAppendOnlyEventStore` of services/event_store.py. Its five attributes are a record;
-- `append` returns the object as it leaves it, also where it raises.
pub mod Invariant
pub mod Contract
use night_ledger.Prelude.{
  ℕ, ◌+◌, String, Bool, true, false, Option, none, some, List, [], ◌∷◌, ◌++◌, map, ltb, ◌==◌,
  str_eq, if◌then◌else◌,
}
use night_ledger.Prelude.Dict.{Dict, lookup, insert, values}
use night_ledger.Prelude.Time.{Datetime, isoformat}
use night_ledger.Prelude.Sort.{sort_by}
use night_ledger.Schema.{EventPayload, StoredEvent}
use night_ledger.Errors.{Result, ok, raise, duplicate_event}
use night_ledger.EventStore.{Digest, build_event_hash, EventStore}

pub record StoredRecord : Type 0 where
  pub sequence : ℕ
  pub id : String
  pub timestamp : Datetime
  pub run_id : String
  pub payload : EventPayload
  pub integrity_warning : Bool
  pub prev_hash : Option String
  pub hash : String

-- A set of texts is the list of its members.
pub record Memory : Type 0 where
  pub sequence : ℕ
  pub event_id_index : Dict (List String)
  pub run_records_index : Dict (List StoredRecord)
  pub last_timestamp_by_run : Dict Datetime
  pub last_hash_by_run : Dict String

abbrev pub empty : Memory
empty = record {
  sequence = 0;
  event_id_index = [];
  run_records_index = [];
  last_timestamp_by_run = [];
  last_hash_by_run = [];
}

-- `d[k]` of a `defaultdict(list)` or `defaultdict(set)`
abbrev pub default_list {ℓ} : {A : Type ℓ} → Option (List A) → List A
default_list none = []
default_list (some xs) = xs

unfoldable pub contains : String → List String → Bool
contains x [] = false
contains x (y ∷ ys) = let rest = contains x ys in if str_eq y x then true else rest

-- RULE-CORE-005 on what is stored of the run: is the timestamp older?
abbrev pub is_older : Datetime → Option Datetime → Bool
is_older t none = false
is_older t (some last) = ltb t last

unfoldable pub to_stored_event : StoredRecord → StoredEvent
to_stored_event r = record {
  id = r.id;
  timestamp = r.timestamp;
  run_id = r.run_id;
  payload = r.payload;
  integrity_warning = r.integrity_warning;
  prev_hash = r.prev_hash;
  hash = r.hash;
}

-- The key `(record.timestamp, record.sequence)` of `sorted`.
unfoldable pub key_leb : StoredRecord → StoredRecord → Bool
key_leb a b =
    if ltb a.timestamp b.timestamp
    then true
    else if a.timestamp == b.timestamp
    then (if ltb b.sequence a.sequence then false else true)
    else false

unfoldable pub records : Memory → String → List StoredRecord
records m run_id = default_list (lookup run_id m.run_records_index)

-- The record that `append` stores for an event that is no duplicate.
unfoldable pub new_record : Digest → Memory → EventPayload → StoredRecord
new_record digest m event =
    let integrity_warning =
      is_older event.timestamp (lookup event.run_id m.last_timestamp_by_run) in
    let prev_hash = lookup event.run_id m.last_hash_by_run in
    record {
      sequence = m.sequence + 1;
      id = event.id;
      timestamp = event.timestamp;
      run_id = event.run_id;
      payload = event;
      integrity_warning = integrity_warning;
      prev_hash = prev_hash;
      hash = build_event_hash digest (record {
        run_id = event.run_id;
        event_id = event.id;
        timestamp = isoformat event.timestamp;
        payload = event;
        integrity_warning = integrity_warning;
        prev_hash = prev_hash;
      });
    }

-- An event that is older than the last timestamp leaves that one.
unfoldable pub later_timestamp : EventPayload → Dict Datetime → Dict Datetime
later_timestamp event last =
    if is_older event.timestamp (lookup event.run_id last)
    then last
    else insert event.run_id event.timestamp last

-- The object with the record of the event in all of its indexes.
unfoldable pub commit : Digest → Memory → EventPayload → Memory
commit digest m event =
    let ids = default_list (lookup event.run_id m.event_id_index) in
    let stored = new_record digest m event in
    record {
      sequence = m.sequence + 1;
      event_id_index = insert event.run_id (ids ++ event.id ∷ []) m.event_id_index;
      run_records_index =
          insert event.run_id (records m event.run_id ++ stored ∷ []) m.run_records_index;
      last_timestamp_by_run = later_timestamp event m.last_timestamp_by_run;
      last_hash_by_run = insert event.run_id stored.hash m.last_hash_by_run;
    }

-- The read of the `defaultdict` makes an entry for the run, also where the event is a duplicate.
unfoldable pub touch : Memory → String → Memory
touch m run_id = record m {
  event_id_index = insert run_id (default_list (lookup run_id m.event_id_index)) m.event_id_index;
}

unfoldable pub append : Digest → Memory → EventPayload → Memory × Result StoredEvent
append digest m event =
    if contains event.id (default_list (lookup event.run_id m.event_id_index))
    then (touch m event.run_id, raise (duplicate_event event.id event.run_id))
    else (commit digest m event, ok (to_stored_event (new_record digest m event)))

unfoldable pub list_by_run_id : Memory → String → List StoredEvent
list_by_run_id m run_id = map to_stored_event (sort_by key_leb (records m run_id))

unfoldable pub flatten : List (List StoredRecord) → List StoredRecord
flatten [] = []
flatten (rs ∷ rest) = rs ++ flatten rest

unfoldable pub list_all : Memory → List StoredEvent
list_all m = map to_stored_event (sort_by key_leb (flatten (values m.run_records_index)))

abbrev pub memory_store : Digest → EventStore Memory
memory_store digest = record {
  append = append digest;
  list_by_run_id = list_by_run_id;
  list_all = list_all;
}

-- The store after these calls of `append`, whether they stored or raised.
unfoldable pub append_all : Digest → Memory → List EventPayload → Memory
append_all digest m [] = m
append_all digest m (event ∷ events) = append_all digest (append digest m event).0 events

abbrev pub store_of : Digest → List EventPayload → Memory
store_of digest events = append_all digest empty events
