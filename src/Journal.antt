-- ===== src/Journal.antt =====
-- services/journal_projection_service.py: the readable journal of a run.
-- The payload of a stored event has all keys with values of their types, so the defaults for a
-- missing key or another type are never taken, and are left out. `resolved_at` is a text in the
-- payload, which is copied.
pub mod Readable
use Prim.Native.String.{◌++◌}
use night_ledger.Prelude.{
  ℕ, zero, suc, ◌+◌, ◌/◌, ◌%◌, String, Bool, true, false, not, ◌&&◌, ◌||◌, Option, none, some, List,
  [], ◌∷◌, ltb, leb, str_eq, if◌then◌else◌, is_empty,
}
use night_ledger.Prelude.Text.{is_blank}
use night_ledger.Prelude.Time.{Datetime, digit, pad, format_timestamp}
use night_ledger.Schema.{
  StoredEvent, EventPayload, EventType, ActorType, ApprovalStatus, RiskLevel, Evidence, is_action,
  is_high, is_decided, is_approval_requested, is_approval_resolved,
}
use night_ledger.Errors.{Result, ok, conflict, ◌>>=◌, ◌>>◌}

pub record PayloadRef : Type 0 where
  pub run_id : String
  pub event_id : String
  pub path : String

pub record ApprovalContext : Type 0 where
  pub requires_approval : Bool
  pub status : ApprovalStatus
  pub requested_by : Option String
  pub resolved_by : Option String
  pub resolved_at : Option Datetime
  pub reason : Option String

-- The object `metadata`.
pub record Metadata : Type 0 where
  pub actor : ActorType
  pub confidence : Option String
  pub risk_level : Option RiskLevel
  pub integrity_warning : Bool

pub record ApprovalIndicator : Type 0 where
  pub is_approval_required : Bool
  pub is_approval_resolved : Bool
  pub decision : Option ApprovalStatus

pub record JournalEntry : Type 0 where
  pub entry_id : String
  pub event_id : String
  pub timestamp : String
  pub event_type : EventType
  pub title : String
  pub details : String
  pub payload_ref : PayloadRef
  pub approval_context : ApprovalContext
  pub metadata : Metadata
  pub evidence_refs : List Evidence
  pub approval_indicator : Option ApprovalIndicator

pub record RunJournalProjection : Type 0 where
  pub run_id : String
  pub entries : List JournalEntry

decimal : ℕ → ℕ → String
unfolding digit
decimal zero n = ""
decimal (suc fuel) n =
    let rest = decimal fuel (n / 10) in if ltb n 10 then digit n else rest ++ digit (n % 10)

-- `f"{index:04d}"`
unfoldable pub index_text : ℕ → String
unfolding decimal pad
index_text index = if ltb index 10000 then pad 4 index else decimal index index

unfoldable pub required_readable_field : String → String → Result (Unit {0})
required_readable_field field value =
    if is_blank value
    then conflict field ("journal field '" ++ field ++ "' must be a non-empty string")
        "MISSING_TIMELINE_FIELDS"
    else ok tt

unfoldable pub assert_traceability_identity : StoredEvent → Result (Unit {0})
assert_traceability_identity event =
    if not (str_eq event.payload.id event.id)
    then conflict "payload.id" "payload.id must match stored event id for traceability"
        "TRACEABILITY_LINK_BROKEN"
    else if not (str_eq event.payload.run_id event.run_id)
    then conflict "payload.run_id" "payload.run_id must match stored run id for traceability"
        "TRACEABILITY_LINK_BROKEN"
    else ok tt

unfoldable pub assert_risky_action_has_evidence : EventPayload → Result (Unit {0})
assert_risky_action_has_evidence payload =
    if is_action payload.type
      && (is_high payload.risk_level || payload.requires_approval)
      && is_empty payload.evidence
    then conflict "evidence" "risky action journal entries must include evidence links"
        "MISSING_RISK_EVIDENCE"
    else ok tt

unfoldable pub approval_indicator : EventPayload → Option ApprovalIndicator
approval_indicator payload =
    let required = payload.requires_approval || is_approval_requested payload.type in
    let resolved = is_approval_resolved payload.type || is_decided payload.approval.status in
    if not required && not resolved
    then none
    else some (record {
      is_approval_required = required;
      is_approval_resolved = resolved;
      decision = if resolved then some payload.approval.status else none;
    })

unfoldable pub journal_entry : String → ℕ → StoredEvent → JournalEntry
unfolding index_text approval_indicator
journal_entry run_id index event =
    let payload = event.payload in
    record {
      entry_id = "jrnl_" ++ run_id ++ "_" ++ index_text index;
      event_id = event.id;
      timestamp = format_timestamp event.timestamp;
      event_type = payload.type;
      title = payload.title;
      details = payload.details;
      payload_ref = record {
        run_id = run_id;
        event_id = event.id;
        path = "/v1/runs/" ++ run_id ++ "/events#" ++ event.id;
      };
      approval_context = record {
        requires_approval = payload.requires_approval;
        status = payload.approval.status;
        requested_by = payload.approval.requested_by;
        resolved_by = payload.approval.resolved_by;
        resolved_at = payload.approval.resolved_at;
        reason = payload.approval.reason;
      };
      metadata = record {
        actor = payload.actor;
        confidence = payload.confidence;
        risk_level = payload.risk_level;
        integrity_warning = event.integrity_warning;
      };
      evidence_refs = payload.evidence;
      approval_indicator = approval_indicator payload;
    }

abbrev pub is_before : Datetime → Option Datetime → Bool
is_before t none = false
is_before t (some last) = ltb t last

-- The checks of a round of the loop, in their order.
unfoldable pub check_event : String → Option Datetime → StoredEvent → Result (Unit {0})
unfolding required_readable_field assert_traceability_identity assert_risky_action_has_evidence
check_event run_id last_timestamp event =
    if not (str_eq event.run_id run_id)
    then conflict "run_id"
        ("event '" ++ event.id ++ "' belongs to run '" ++ event.run_id ++ "', expected '" ++ run_id
          ++ "'")
        "CROSS_RUN_EVENT_STREAM"
    else if is_before event.timestamp last_timestamp
    then conflict "timestamp" "event stream must be ordered by ascending timestamp"
        "UNORDERED_EVENT_STREAM"
    else (assert_traceability_identity event
        >> (required_readable_field "title" event.payload.title
            >> (required_readable_field "details" event.payload.details
                >> assert_risky_action_has_evidence event.payload)))

unfoldable pub journal_from :
    String → ℕ → Option Datetime → List StoredEvent → Result (List JournalEntry)
unfolding check_event journal_entry
journal_from run_id index last_timestamp [] = ok []
journal_from run_id index last_timestamp (event ∷ events) =
    check_event run_id last_timestamp event
    >> (journal_from run_id (index + 1) (some event.timestamp) events >>= λ rest.
        ok (journal_entry run_id index event ∷ rest))

unfoldable pub project_run_journal : String → List StoredEvent → Result RunJournalProjection
unfolding journal_from
project_run_journal run_id events = do
  entries ← journal_from run_id 1 none events
  ok (record { run_id = run_id; entries = entries })
