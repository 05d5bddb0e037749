-- ===== src/Tests/Ingest.antt =====
-- An ingestion into a run that waits for an approval.
use night_ledger.Prelude.{◌≡◌, refl, true, false, ap, ◌∙◌}
use night_ledger.Errors.{ok, is_ok}
use night_ledger.EventStore.Memory
use night_ledger.EventStore.Memory.{memory_store}
use night_ledger.EventStore.Memory.Invariant.{IsValid}
use night_ledger.EventStore.Memory.Contract.{memory_store-IsEventStore}
use night_ledger.RunStatus.{project_run_status}
use night_ledger.Ingest.{ingest_event, IngestReply}
use night_ledger.Ingest.Projectable.{ingest_event-keeps_projectable}
use night_ledger.Tests.{granting, id_digest, as_given}
use night_ledger.Tests.Approvals.{waiting, waiting-IsValid, asked-listed, asked-on_hold, on_hold}

abbrev answered : IngestReply
answered = record { event_id = "evt_3"; integrity_warning = false }

granting-answered :
    (ingest_event (memory_store id_digest) as_given granting waiting).1 ≡ ok answered
unfolding ingest_event night_ledger.Ingest.validate_event_payload night_ledger.Ingest.admit
    night_ledger.BusinessRules.validate_event_business_rules
    night_ledger.BusinessRules.resolved_violations
    night_ledger.BusinessRules.project_existing_run_status
    night_ledger.BusinessRules.summary_violations night_ledger.BusinessRules.terminal_violations
    night_ledger.BusinessRules.requested_violations night_ledger.BusinessRules.risk_violations
    night_ledger.BusinessRules.find_event_by_id night_ledger.BusinessRules.signature_violations
    night_ledger.BusinessRules.target_violations
    night_ledger.BusinessRules.terminal_status_from_event_payload project_run_status
    night_ledger.RunStatus.to_terminal_status night_ledger.RunStatus.is_resolution_signal
    night_ledger.RunStatus.is_pending_signal night_ledger.RunStatus.pending_context_from_event
    night_ledger.RunStatus.step night_ledger.RunStatus.advance night_ledger.RunStatus.observe
    night_ledger.RunStatus.request night_ledger.RunStatus.project_from
    night_ledger.Prelude.get_last? night_ledger.Prelude.find? night_ledger.Prelude.any
    night_ledger.Prelude.Text.is_blank Memory.list_by_run_id night_ledger.Prelude.Sort.sort_by
    Memory.records night_ledger.Prelude.Dict.lookup Memory.append_all Memory.append Memory.contains
    Memory.commit night_ledger.Prelude.Dict.insert Memory.key_leb Memory.new_record
    Memory.to_stored_event night_ledger.EventStore.build_event_hash Memory.later_timestamp
granting-answered = refl

ingest_event-keeps_projectable_example :
    is_ok (
      project_run_status (
        Memory.list_by_run_id
          (ingest_event (memory_store id_digest) as_given granting waiting).0
          "run_1"))
    ≡ true
unfolding night_ledger.RunStatus.is_resolution_signal night_ledger.RunStatus.is_pending_signal
    Memory.list_by_run_id night_ledger.Prelude.Sort.sort_by Memory.records
    night_ledger.Prelude.Dict.lookup Memory.append_all Memory.append Memory.contains Memory.commit
    night_ledger.Prelude.Dict.insert Memory.key_leb Memory.new_record Memory.to_stored_event
    night_ledger.EventStore.build_event_hash Memory.later_timestamp
ingest_event-keeps_projectable_example =
    ingest_event-keeps_projectable (memory_store id_digest) as_given granting waiting IsValid
      (memory_store-IsEventStore id_digest) waiting-IsValid granting answered on_hold refl
      granting-answered (ap project_run_status asked-listed ∙ asked-on_hold) (refl, (refl, tt)) refl
      (λ h. cc) refl (λ _. refl)
