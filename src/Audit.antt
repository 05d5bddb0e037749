-- ===== src/Audit.antt =====
-- services/audit_export_service.py: the audit export of a decision, and the check of the hash
-- chain of its run.
pub mod Commitment
pub mod Chain
pub mod Disorder
pub mod Export
use night_ledger.Prelude.{
  ℕ, String, Bool, true, false, not, ◌||◌, Option, none, some, List, [], ◌∷◌, map, filter, length,
  leb, ltb, str_eq, opt_eq, if◌then◌else◌, text_leb, distinct,
}
use night_ledger.Prelude.Sort.{sort_by}
use night_ledger.Prelude.Time.{isoformat, format_timestamp}
use night_ledger.Schema.{StoredEvent, type_text, actor_text}
use night_ledger.Errors.{Result, ok, raise, conflict, approval_not_found, ◌>>=◌, ◌>>◌}
use night_ledger.EventStore.{Digest, HashFields, build_event_hash, EventStore}

-- What the hash of an event must cover if `previous_hash` is the hash of the one before.
unfoldable pub sealed : Option String → StoredEvent → HashFields
sealed previous_hash event = record {
  run_id = event.run_id;
  event_id = event.id;
  timestamp = isoformat event.timestamp;
  payload = event.payload;
  integrity_warning = event.integrity_warning;
  prev_hash = previous_hash;
}

abbrev pub chain_broken {ℓ} : {A : Type ℓ} → Result A
chain_broken = conflict "hash" "stored hash chain integrity validation failed" "HASH_CHAIN_BROKEN"

unfoldable pub verify_from : Digest → Option String → List StoredEvent → Result (Unit {0})
verify_from digest previous_hash [] = ok tt
verify_from digest previous_hash (event ∷ events) =
    let rest = verify_from digest (some event.hash) events in
    if not (opt_eq event.prev_hash previous_hash)
      || str_eq event.hash ""
      || not (str_eq event.hash (build_event_hash digest (sealed previous_hash event)))
    then chain_broken
    else rest

unfoldable pub verify_hash_chain : Digest → List StoredEvent → Result (Unit {0})
unfolding verify_from
verify_hash_chain digest events = verify_from digest none events

-- `_decision_id`: an empty identifier counts as none.
abbrev pub nonempty : Option String → Option String
nonempty none = none
nonempty (some s) = if str_eq s "" then none else some s

unfoldable pub decision_id_of : StoredEvent → Option String
decision_id_of event = nonempty event.payload.approval.decision_id

unfoldable pub of_decision : String → StoredEvent → Bool
unfolding decision_id_of
of_decision decision_id event = opt_eq (decision_id_of event) (some decision_id)

pub record AuditEvent : Type 0 where
  pub event_id : String
  pub decision_id : String
  pub action_type : String
  pub actor : String
  pub timestamp : String
  pub reason : String
  pub prev_hash : Option String
  pub hash : String

pub record AuditExport : Type 0 where
  pub decision_id : String
  pub run_id : String
  pub event_count : ℕ
  pub events : List AuditEvent

unfoldable pub audit_event : String → StoredEvent → AuditEvent
audit_event decision_id event = record {
  event_id = event.id;
  decision_id = decision_id;
  action_type = type_text event.payload.type;
  actor = actor_text event.payload.actor;
  timestamp = format_timestamp event.timestamp;
  reason = event.payload.details;
  prev_hash = event.prev_hash;
  hash = event.hash;
}

-- `sorted({event.run_id for event in events})`
unfoldable pub sorted_run_ids : List StoredEvent → List String
sorted_run_ids events = sort_by text_leb (distinct (map (λ (e : StoredEvent). e.run_id) events))

module _ {S : Type 0} (store : EventStore S) (digest : Digest) (s : S) (decision_id : String) where
  -- The export of one run.
  unfoldable pub export_run : String → Result AuditExport
  unfolding of_decision audit_event verify_hash_chain
  export_run run_id =
      let run_events = store.list_by_run_id s run_id in
      let ordered = filter (of_decision decision_id) run_events in
      verify_hash_chain digest run_events
      >> ok (record {
        decision_id = decision_id;
        run_id = run_id;
        event_count = length ordered;
        events = map (audit_event decision_id) ordered;
      })

  abbrev pub export_runs : List String → Result AuditExport
  export_runs [] = raise (approval_not_found decision_id "decision_id")
  export_runs (run_id ∷ []) = export_run run_id
  export_runs (_ ∷ _ ∷ _) =
      conflict "decision_id"
        "decision_id spans multiple runs and cannot be exported deterministically"
        "CROSS_RUN_DECISION_TRACE"

  -- With no matching event there is no run identifier either.
  unfoldable pub export_decision_audit : Result AuditExport
  unfolding sorted_run_ids of_decision
  export_decision_audit =
      export_runs (sorted_run_ids (filter (of_decision decision_id) (store.list_all s)))
