-- ===== src/Tests.antt =====
-- The properties of the other modules at concrete inputs: a run that asks for approval.
mod Runs
mod Stores
mod Approvals
mod Tokens
mod Gate
mod Authorize
mod Handlers
mod Ingest
use Prim.Native.String.{◌++◌}
use night_ledger.Prelude.{ℕ, ◌+◌, String, false, true, Option, none, some, List, [], ◌∷◌}
use night_ledger.Prelude.Time.{demo_time, milliseconds}
use night_ledger.Schema.{
  EventPayload, StoredEvent, Approval, not_required, pending, approved, action, approval_requested,
  approval_resolved, summary, agent, human, low, Evidence, log,
}
use night_ledger.EventStore.{Digest}
use night_ledger.Ingest.{Validated, valid}

abbrev pub id_digest : Digest
id_digest fields = fields.event_id

abbrev pub triage : EventPayload
triage = record {
  id = "evt_1";
  run_id = "run_1";
  timestamp = demo_time;
  type = action;
  actor = agent;
  title = "Triage";
  details = "Read the inbox";
  confidence = none;
  risk_level = some low;
  requires_approval = false;
  approval = record {
    status = not_required;
    decision_id = none;
    requested_by = none;
    resolved_by = none;
    resolved_at = none;
    reason = none;
  };
  evidence = [];
  meta = none;
}

abbrev pub asking : EventPayload
asking = record triage {
  id = "evt_2";
  timestamp = demo_time + milliseconds 1;
  type = approval_requested;
  requires_approval = true;
  approval = record {
    status = pending;
    decision_id = some "dec_1";
    requested_by = some "agent";
    resolved_by = none;
    resolved_at = none;
    reason = none;
  };
}

abbrev pub granting : EventPayload
granting = record asking {
  id = "evt_3";
  timestamp = demo_time + milliseconds 2;
  type = approval_resolved;
  actor = human;
  approval = record {
    status = approved;
    decision_id = some "dec_1";
    requested_by = some "agent";
    resolved_by = some "ada";
    resolved_at = some (demo_time + milliseconds 2);
    reason = none;
  };
}

abbrev pub finishing : EventPayload
finishing = record triage { id = "evt_4"; timestamp = demo_time + milliseconds 3; type = summary }

abbrev pub stored_as : EventPayload → StoredEvent
stored_as event = record {
  id = event.id;
  timestamp = event.timestamp;
  run_id = event.run_id;
  payload = event;
  integrity_warning = false;
  prev_hash = none;
  hash = "sha256:" ++ event.id;
}

-- Validation that finds no error.
abbrev pub as_given : EventPayload → Validated
as_given event = valid event
