-- ===== src/EventStore.antt =====
-- services/event_store.py: what the two stores share, the hash of an event and the protocol.
pub mod Contract
pub mod Memory
pub mod Sqlite
pub mod Warnings
use Prim.Native.String.{◌++◌}
use night_ledger.Prelude.{String, Bool, Option, List}
use night_ledger.Schema.{EventPayload, StoredEvent}
use night_ledger.Errors.{Result}

-- The fields of the canonical JSON object that is hashed.
pub record HashFields : Type 0 where
  pub run_id : String
  pub event_id : String
  pub timestamp : String
  pub payload : EventPayload
  pub integrity_warning : Bool
  pub prev_hash : Option String

-- The hexadecimal SHA-256 of the canonical JSON text of the fields.
abbrev pub Digest : Type 0
Digest = HashFields → String

unfoldable pub build_event_hash : Digest → HashFields → String
build_event_hash digest fields = "sha256:" ++ digest fields

-- The protocol `EventStore`: a method returns the store as it leaves it.
pub record EventStore (S : Type 0) : Type 0 where
  pub append : S → EventPayload → S × Result StoredEvent
  pub list_by_run_id : S → String → List StoredEvent
  pub list_all : S → List StoredEvent
