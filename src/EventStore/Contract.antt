-- ===== src/EventStore/Contract.antt =====
-- services/event_store.py: what the protocol promises to the services that use a store.
use night_ledger.Prelude.{String, Bool, not, ◌≡◌, List, any, leb, str_eq, if◌then◌else◌}
use night_ledger.Prelude.Sort.{insert_after}
use night_ledger.Schema.{EventPayload, StoredEvent}
use night_ledger.Errors.{ok, raise, duplicate_event, Error, is_ok}
use night_ledger.EventStore.{EventStore}

abbrev pub chrono_leb : StoredEvent → StoredEvent → Bool
chrono_leb a b = leb a.timestamp b.timestamp

-- Behind all events at the front that are not later: among equal timestamps, the last.
abbrev pub place : StoredEvent → List StoredEvent → List StoredEvent
place = insert_after chrono_leb

abbrev pub has_id : String → StoredEvent → Bool
has_id event_id event = str_eq event.id event_id

-- The stored event is the given one.
pub record IsRecordOf (event : EventPayload) (stored : StoredEvent) : Type 0 where
  pub id : stored.id ≡ event.id
  pub run_id : stored.run_id ≡ event.run_id
  pub timestamp : stored.timestamp ≡ event.timestamp
  pub payload : stored.payload ≡ event

-- The lists that a client can read change by the one event, at its place in time.
pub record IsAppended {S : Type 0} (store : EventStore S) (s s' : S) (e : StoredEvent)
    : Type 0 where
  pub timeline :
      (run_id : String)
      → store.list_by_run_id s' run_id ≡ (
          if str_eq e.run_id run_id
          then place e (store.list_by_run_id s run_id)
          else store.list_by_run_id s run_id)
  pub everything : store.list_all s' ≡ place e (store.list_all s)

pub record IsUnchanged {S : Type 0} (store : EventStore S) (s s' : S) : Type 0 where
  pub timeline : (run_id : String) → store.list_by_run_id s' run_id ≡ store.list_by_run_id s run_id
  pub everything : store.list_all s' ≡ store.list_all s

-- An append-only store, in the states that `Valid` describes.
pub record IsEventStore {S : Type 0} (store : EventStore S) (Valid : S → Type 0) : Type 0 where
  pub keeps : (s : S) (event : EventPayload) → Valid s → Valid (store.append s event).0
  pub unique :
      (s : S) (event : EventPayload)
      → Valid s
      → is_ok (store.append s event).1
        ≡ not (any (has_id event.id) (store.list_by_run_id s event.run_id))
  pub stored :
      (s : S) (event : EventPayload) (e : StoredEvent)
      → Valid s
      → (store.append s event).1 ≡ ok e
      → IsRecordOf event e × IsAppended store s (store.append s event).0 e
  pub refused :
      (s : S) (event : EventPayload) (x : Error)
      → Valid s
      → (store.append s event).1 ≡ raise x
      → (x ≡ duplicate_event event.id event.run_id) × IsUnchanged store s (store.append s event).0
