-- ===== src/Schema.antt =====
-- models/event_schema.py: the event that the API accepts, and `StoredEvent` of event_store.py.
-- `Literal` types are data types. `confidence` is only copied and hashed: the text of the number
-- stands for it. The timestamp is the UTC instant that the validator makes of it; `resolved_at` is
-- only copied, hashed and compared with None.
use night_ledger.Prelude.{String, Bool, true, false, Option, List}
use night_ledger.Prelude.Time.{Datetime}

pub data EventType : Type 0 where
  intent action observation decision approval_requested approval_resolved error summary : EventType

pub data ActorType : Type 0 where
  agent system human : ActorType

pub data RiskLevel : Type 0 where
  low medium high : RiskLevel

pub data ApprovalStatus : Type 0 where
  not_required pending approved rejected : ApprovalStatus

pub data EvidenceKind : Type 0 where
  log url artifact diff : EvidenceKind

pub record Approval : Type 0 where
  pub status : ApprovalStatus
  pub decision_id : Option String
  pub requested_by : Option String
  pub resolved_by : Option String
  pub resolved_at : Option Datetime
  pub reason : Option String

pub record Evidence : Type 0 where
  pub kind : EvidenceKind
  pub label : String
  pub ref : String

pub record EventMeta : Type 0 where
  pub workflow : String
  pub step : String

pub record EventPayload : Type 0 where
  pub id : String
  pub run_id : String
  pub timestamp : Datetime
  pub type : EventType
  pub actor : ActorType
  pub title : String
  pub details : String
  pub confidence : Option String
  pub risk_level : Option RiskLevel
  pub requires_approval : Bool
  pub approval : Approval
  pub evidence : List Evidence
  pub meta : Option EventMeta

-- `payload` is `event.model_dump(mode="json")`: all keys are there, with values of their types.
pub record StoredEvent : Type 0 where
  pub id : String
  pub timestamp : Datetime
  pub run_id : String
  pub payload : EventPayload
  pub integrity_warning : Bool
  pub prev_hash : Option String
  pub hash : String

-- Comparisons with a literal.
abbrev pub is_summary : EventType → Bool
is_summary summary = true
is_summary _ = false

abbrev pub is_action : EventType → Bool
is_action action = true
is_action _ = false

abbrev pub is_approval_requested : EventType → Bool
is_approval_requested approval_requested = true
is_approval_requested _ = false

abbrev pub is_approval_resolved : EventType → Bool
is_approval_resolved approval_resolved = true
is_approval_resolved _ = false

abbrev pub is_pending : ApprovalStatus → Bool
is_pending pending = true
is_pending _ = false

abbrev pub is_not_required : ApprovalStatus → Bool
is_not_required not_required = true
is_not_required _ = false

-- `status in {"approved", "rejected"}`
abbrev pub is_decided : ApprovalStatus → Bool
is_decided approved = true
is_decided rejected = true
is_decided _ = false

abbrev pub is_approved : ApprovalStatus → Bool
is_approved approved = true
is_approved _ = false

abbrev pub is_high : Option RiskLevel → Bool
is_high (Option.some high) = true
is_high _ = false

unfoldable pub type_text : EventType → String
type_text intent = "intent"
type_text action = "action"
type_text observation = "observation"
type_text decision = "decision"
type_text approval_requested = "approval_requested"
type_text approval_resolved = "approval_resolved"
type_text error = "error"
type_text summary = "summary"

unfoldable pub actor_text : ActorType → String
actor_text agent = "agent"
actor_text system = "system"
actor_text human = "human"
