-- ===== src/Approval.antt =====
-- services/approval_service.py: what the functions of the service share, and those that only read.
-- The clock, the random hexadecimal texts and the elapsed time of a call are its `Call`; pydantic's
-- validation of a draft is a parameter. `timedelta` sums do not overflow here (Python's end in the
-- year 9999).
pub mod Drafts
pub mod Continuation
pub mod Resolve
pub mod Register
pub mod Queue
use Prim.Native.String.{◌++◌}
use night_ledger.Prelude.{
  ℕ, ◌+◌, String, Bool, true, false, not, ◌&&◌, ◌||◌, Option, none, some, List, [], ◌∷◌, filter,
  find?, length, ltb, str_eq, opt_eq, if◌then◌else◌, is_none, get_last?,
}
use night_ledger.Prelude.Text.{remove}
use night_ledger.Prelude.Time.{Datetime, format_timestamp}
use night_ledger.Schema.{
  StoredEvent, EventPayload, ApprovalStatus, RiskLevel, is_approval_requested, is_approval_resolved,
  is_pending, is_decided,
}
use night_ledger.Errors.{Result, ok, raise, conflict, approval_not_found}
use night_ledger.EventStore.{EventStore}
use night_ledger.EventStore.Contract.{has_id}
use text.Mathlib.Text.{starts_with}

-- What a call reads of its surroundings.
pub record Call : Type 0 where
  pub now : Datetime
  pub uuid8 : String
  pub uuid10 : String
  pub elapsed_ms : ℕ

unfoldable pub is_pending_signal : StoredEvent → Bool
is_pending_signal event =
    is_approval_requested event.payload.type
    || (event.payload.requires_approval && is_pending event.payload.approval.status)

unfoldable pub is_resolution_signal : StoredEvent → Bool
is_resolution_signal event =
    is_approval_resolved event.payload.type
    || (event.payload.requires_approval && is_decided event.payload.approval.status)

unfoldable pub resolution_prefix : String → String
resolution_prefix target = "apr_" ++ target ++ "_"

-- `current_pending_event_id` after an event.
abbrev pub next_current : StoredEvent → Option String → Option String
next_current event current =
    if is_pending_signal event
    then some event.id
    else if is_resolution_signal event
    then none
    else current

-- Does this event resolve the target?
unfoldable pub resolves : String → Option String → StoredEvent → Bool
unfolding is_pending_signal is_resolution_signal resolution_prefix
resolves target current event =
    not (is_pending_signal event)
    && (is_resolution_signal event
        && (starts_with event.id (resolution_prefix target) || opt_eq current (some target)))

unfoldable pub resolved_from : String → Option String → List StoredEvent → Bool
unfolding resolves
resolved_from target current [] = false
resolved_from target current (event ∷ events) =
    let rest = resolved_from target (next_current event current) events in
    if resolves target current event then true else rest

unfoldable pub was_event_resolved : List StoredEvent → String → Bool
unfolding resolved_from
was_event_resolved run_events target = resolved_from target none run_events

unfoldable pub find_event_by_id : List StoredEvent → String → Option StoredEvent
find_event_by_id events event_id = find? (has_id event_id) events

-- The timestamp in an identifier: `-`, `:` and `.` are taken out.
unfoldable pub compact_time : String → String
compact_time timestamp = remove b'.' (remove b':' (remove b'-' timestamp))

abbrev pub of_decision_id : String → StoredEvent → Bool
of_decision_id decision_id event = opt_eq event.payload.approval.decision_id (some decision_id)

abbrev pub is_lifecycle : StoredEvent → Bool
is_lifecycle event = is_pending_signal event || is_resolution_signal event

pub record DecisionState : Type 0 where
  pub decision_id : String
  pub run_id : String
  pub status : ApprovalStatus
  pub requested_event_id : Option String
  pub resolved_event_id : Option String
  pub requested_at : Option String
  pub resolved_at : Option Datetime
  pub requested_by : Option String
  pub resolved_by : Option String
  pub reason : Option String

-- The first request and the last resolution among the events.
unfoldable pub first_request : List StoredEvent → Option StoredEvent
unfolding is_pending_signal
first_request events = find? is_pending_signal events

unfoldable pub last_resolution : List StoredEvent → Option StoredEvent
unfolding is_resolution_signal
last_resolution events = get_last? (filter is_resolution_signal events)

abbrev pub or_else {ℓ} : {A : Type ℓ} → Option A → Option A → Option A
or_else none b = b
or_else (some a) b = some a

abbrev pub requested_fields : Option StoredEvent → Option String × Option String × Option String
requested_fields none = (none, none, none)
requested_fields (some e) =
    (some e.id, some (format_timestamp e.timestamp), e.payload.approval.requested_by)

abbrev pub id_of : Option StoredEvent → Option String
id_of none = none
id_of (some e) = some e.id

unfoldable pub decision_state :
    String → StoredEvent → Option StoredEvent → Option StoredEvent → DecisionState
decision_state decision_id anchor requested resolved =
    let (event_id, at, by) = requested_fields requested in
    record {
      decision_id = decision_id;
      run_id = anchor.run_id;
      status = anchor.payload.approval.status;
      requested_event_id = event_id;
      resolved_event_id = id_of resolved;
      requested_at = at;
      resolved_at = anchor.payload.approval.resolved_at;
      requested_by = by;
      resolved_by = anchor.payload.approval.resolved_by;
      reason = anchor.payload.approval.reason;
    }

abbrev pub anchored :
    String → Option StoredEvent → Option StoredEvent → Option StoredEvent → Result DecisionState
anchored decision_id none requested resolved = raise (approval_not_found decision_id "decision_id")
anchored decision_id (some anchor) requested resolved =
    ok (decision_state decision_id anchor requested resolved)

-- With no event of the decision, or none of its lifecycle, there is no anchor.
unfoldable pub state_of_events : String → List StoredEvent → Result DecisionState
unfolding first_request last_resolution decision_state
state_of_events decision_id decision_events =
    let lifecycle = filter is_lifecycle decision_events in
    let requested = first_request lifecycle in
    let resolved = last_resolution lifecycle in
    anchored decision_id (or_else resolved (or_else requested (get_last? lifecycle))) requested
      resolved

unfoldable pub get_approval_decision_state :
    {S : Type 0} → EventStore S → S → String → Result DecisionState
unfolding state_of_events
get_approval_decision_state store s decision_id =
    state_of_events decision_id (filter (of_decision_id decision_id) (store.list_all s))
