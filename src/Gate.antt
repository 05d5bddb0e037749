-- ===== src/Gate.antt =====
-- controllers/events_controller.py: the receipts that the handlers of the execution gate append to
-- a run. The clock and the random part of an identifier are arguments, collected in `Call`.
pub mod Execute
pub mod Allowed
pub mod Authorize
pub mod Mint
pub mod Used
pub mod Once
pub mod Replies
pub mod Path
pub mod Receipts
use Prim.Native.String.{◌++◌}
use night_ledger.Prelude.{
  ℕ, ◌+◌, String, Bool, true, false, Option, none, some, List, [], ◌∷◌, leb, if◌then◌else◌,
  get_last?,
}
use night_ledger.Prelude.Time.{Datetime, milliseconds}
use night_ledger.Schema.{EventPayload, StoredEvent, EventType, system, low, not_required}
use night_ledger.Exec.{Exec, gets, lift, ◌>>=◌}
use night_ledger.EventStore.{EventStore}
use night_ledger.Ingest.{Validated, validate_event_payload}

-- The clock and the 16 random digits of a receipt.
pub record Call : Type 0 where
  pub now : Datetime
  pub uuid16 : String

-- The arguments of `_append_runtime_receipt`.
pub record Receipt : Type 0 where
  pub run_id : String
  pub event_type : EventType
  pub title : String
  pub details : String
  pub decision_id : Option String
  pub step : String

-- A millisecond after the last event, if the clock is not past that event.
abbrev pub after_last : Datetime → Option StoredEvent → Datetime
after_last now none = now
after_last now (some last) = if leb now last.timestamp then last.timestamp + milliseconds 1 else now

unfoldable pub receipt_event : Call → Receipt → List StoredEvent → EventPayload
receipt_event call receipt existing = record {
  id = "evt_runtime_" ++ call.uuid16;
  run_id = receipt.run_id;
  timestamp = after_last call.now (get_last? existing);
  type = receipt.event_type;
  actor = system;
  title = receipt.title;
  details = receipt.details;
  confidence = some "1.0";
  risk_level = some low;
  requires_approval = false;
  approval = record {
    status = not_required;
    decision_id = receipt.decision_id;
    requested_by = none;
    resolved_by = none;
    resolved_at = none;
    reason = none;
  };
  evidence = [];
  meta = some (record { workflow = "execution_gate"; step = receipt.step });
}

module _ {S : Type 0} (store : EventStore S) (model_validate : EventPayload → Validated) where
  -- `_append_runtime_receipt`
  unfoldable pub append_runtime_receipt : Call → Receipt → Exec S StoredEvent
  unfolding receipt_event
  append_runtime_receipt call receipt = do
    existing ← gets (λ s. store.list_by_run_id s receipt.run_id)
    event ← lift (validate_event_payload model_validate (receipt_event call receipt existing))
    λ s. store.append s event
