-- ===== src/Approval/Continuation.antt =====
-- services/approval_service.py: the events that the demonstration appends after an approval, and the
-- appending of an event with its exceptions.
use night_ledger.Prelude.{
  ℕ, ◌-◌, ◌/◌, String, ◌&&◌, Option, none, some, List, [], ◌∷◌, filter, leb, ◌==◌, str_eq,
  if◌then◌else◌, get_last?,
}
use night_ledger.Prelude.Time.{Datetime}
use night_ledger.Schema.{EventPayload, StoredEvent}
use night_ledger.Errors.{Result, ok, raise, Error, storage_write}
use night_ledger.Exec.{Exec, pure, throw, lift, ◌>>=◌, ◌>>◌}
use night_ledger.EventStore.{EventStore}
use night_ledger.EventStore.Contract.{has_id}
use night_ledger.Ingest.{Validated, validate_event_payload}
use night_ledger.Approval.{Call}
use night_ledger.Approval.Drafts.{
  ApprovalDecision, approve, reject, demo_run_id, demo_approval_event_id, resume_draft,
  complete_draft, error_draft,
}

-- `{event.id: event.timestamp for event in events}.get(event_id)`: the last one counts.
unfoldable pub timestamp_of : List StoredEvent → String → Option Datetime
timestamp_of events event_id = elim (get_last? (filter (has_id event_id) events)) [
  | none ↦ none
  | some e ↦ some e.timestamp
]

-- `int` cuts a fraction off towards zero.
abbrev pub gap_ms : Option Datetime → Option Datetime → Option ℕ
gap_ms (some from) (some to) =
    if leb from to
    then some ((to - from) / 1000)
    else if (from - to) / 1000 == 0
    then some 0
    else none
gap_ms _ _ = none

unfoldable pub orchestration_receipt_gap_ms : List StoredEvent → String → List String → Option ℕ
unfolding timestamp_of
orchestration_receipt_gap_ms run_events resolution_event_id event_ids = elim (get_last? event_ids) [
  | none ↦ none
  | some last ↦ gap_ms (timestamp_of run_events resolution_event_id) (timestamp_of run_events last)
]

-- `except StorageWriteError: raise`, and any other exception becomes one.
abbrev pub as_storage_write : String → Error → Error
as_storage_write message (storage_write m) = storage_write m
as_storage_write message _ = storage_write message

abbrev pub wrapped {ℓ} : {A : Type ℓ} → String → Result A → Result A
wrapped message (ok a) = ok a
wrapped message (raise e) = raise (as_storage_write message e)

module _ {S : Type 0} (store : EventStore S) (model_validate : EventPayload → Validated)
    (call : Call) where
  abbrev pub append_or_fail : String → EventPayload → Exec S StoredEvent
  append_or_fail message event s = let r = store.append s event in (r.0, wrapped message r.1)

  unfoldable pub append_completion_events : String → Datetime → Option String → Exec S (List String)
  append_completion_events run_id resolved_at confidence = do
    resume ←
        lift (validate_event_payload model_validate (resume_draft run_id resolved_at confidence))
    complete ←
        lift (validate_event_payload model_validate (complete_draft run_id resolved_at confidence))
    append_or_fail "triage_inbox orchestration append failed" resume
    append_or_fail "triage_inbox orchestration append failed" complete
    pure (resume.id ∷ complete.id ∷ [])

  -- Best effort: an exception of the store is dropped, one of the validation is not.
  unfoldable pub append_orchestration_error_event : String → Datetime → String → Exec S (Unit {0})
  append_orchestration_error_event run_id resolved_at details = do
    event ←
        lift (validate_event_payload model_validate (error_draft call run_id resolved_at details))
    λ s. ((store.append s event).0, ok tt)

  -- `except StorageWriteError`: journal the failure and raise it again.
  abbrev pub journal_failure : String → Datetime → Result (List String) → Exec S (List String)
  journal_failure run_id resolved_at (raise (storage_write m)) = do
    append_orchestration_error_event run_id resolved_at m
    throw (storage_write m)
  journal_failure run_id resolved_at r = lift r

  unfoldable pub orchestrate : ApprovalDecision → StoredEvent → StoredEvent → Exec S (List String)
  unfolding append_completion_events append_orchestration_error_event
  orchestrate approve target stored s =
      let r = append_completion_events target.run_id stored.timestamp target.payload.confidence s in
      let tried = journal_failure target.run_id stored.timestamp r.1 r.0 in
      if str_eq target.run_id demo_run_id && str_eq target.id demo_approval_event_id
      then tried
      else (s, ok [])
  orchestrate reject target stored s = (s, ok [])
