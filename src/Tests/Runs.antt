-- ===== src/Tests/Runs.antt =====
-- The projection, the rules and the journal of a run at concrete inputs.
use night_ledger.Prelude.{
  ◌≡◌, ◌↔◌, refl, true, false, Option, none, some, List, [], ◌∷◌, ◌++◌, is_none, is_some, find?,
}
use night_ledger.Schema.{EventPayload, StoredEvent}
use night_ledger.Errors.{ok, is_ok, conflict}
use night_ledger.RunStatus.{
  RunStatusProjection, RunWorkflowStatus, paused, approved, completed, running, project_run_status,
  pending_context_from_event, continued_after, to_terminal_status, is_resolution_signal,
  is_pending_signal,
}
use night_ledger.RunStatus.Laws.{
  is_paused, is_terminal, paused-iff-pending, project_run_status-after_terminal,
}
use night_ledger.RunStatus.Pending.{has_id, pending-is_event}
use night_ledger.RunStatus.Machine.{Phase, open_run, Runs, view, project_run_status-Runs}
use night_ledger.BusinessRules.{validate_event_business_rules}
use night_ledger.BusinessRules.Admission.{IsAdmissible, accepted-iff_IsAdmissible}
use night_ledger.BusinessRules.Projectable.{accepted-is_open}
use night_ledger.BusinessRules.Unprojectable.{
  undecided_resolution-unprojectable, early_resolution-unprojectable,
}
use night_ledger.EventStore.Contract.{place}
use night_ledger.Journal.{RunJournalProjection, project_run_journal}
use night_ledger.Journal.Readable.{AllReadable, entries_from, project_run_journal-iff-readable}
use night_ledger.Tests.{triage, asking, granting, finishing, stored_as}

abbrev asked : List StoredEvent
asked = stored_as triage ∷ stored_as asking ∷ []

abbrev on_hold : RunStatusProjection
on_hold = record {
  status = paused;
  pending_approval = some (pending_context_from_event (stored_as asking));
}

abbrev done : RunStatusProjection
done = record { status = completed; pending_approval = none }

asked-on_hold : project_run_status asked ≡ ok on_hold
unfolding project_run_status night_ledger.RunStatus.step to_terminal_status
    night_ledger.RunStatus.advance is_resolution_signal is_pending_signal
    night_ledger.RunStatus.observe night_ledger.RunStatus.request
asked-on_hold = refl

finished-done : project_run_status (stored_as finishing ∷ []) ≡ ok done
unfolding project_run_status night_ledger.RunStatus.step to_terminal_status
finished-done = refl

granting-accepted : validate_event_business_rules granting asked ≡ ok tt
unfolding validate_event_business_rules night_ledger.BusinessRules.resolved_violations
    night_ledger.BusinessRules.project_existing_run_status
    night_ledger.BusinessRules.summary_violations night_ledger.BusinessRules.terminal_violations
    night_ledger.BusinessRules.requested_violations night_ledger.BusinessRules.risk_violations
    night_ledger.BusinessRules.find_event_by_id night_ledger.BusinessRules.signature_violations
    night_ledger.BusinessRules.target_violations night_ledger.BusinessRules.terminal_message
    night_ledger.BusinessRules.terminal_status_from_event_payload
    night_ledger.BusinessRules.terminal_step project_run_status to_terminal_status
    is_resolution_signal is_pending_signal pending_context_from_event night_ledger.RunStatus.step
    night_ledger.RunStatus.advance night_ledger.RunStatus.observe night_ledger.RunStatus.request
    night_ledger.RunStatus.resolve night_ledger.RunStatus.project_from
    night_ledger.RunStatus.terminal_step_status night_ledger.Prelude.get_last? find?
    night_ledger.Prelude.Text.is_blank
granting-accepted = refl

project_run_status-Runs_example :
    (project_run_status asked ≡ ok on_hold)
    ↔ ((q : Phase) × Runs open_run asked q × (view q ≡ on_hold))
project_run_status-Runs_example = project_run_status-Runs asked on_hold

paused-iff-pending_example :
    (is_paused on_hold.status ≡ true) ↔ (is_some on_hold.pending_approval ≡ true)
paused-iff-pending_example = paused-iff-pending asked on_hold asked-on_hold

project_run_status-after_terminal_example :
    project_run_status ((stored_as finishing ∷ []) ++ stored_as triage ∷ [])
    ≡ continued_after completed
project_run_status-after_terminal_example =
    project_run_status-after_terminal (stored_as finishing ∷ []) [] (stored_as triage) done
      finished-done refl

pending-is_event_example : is_some (find? (has_id "evt_2") asked) ≡ true
unfolding pending_context_from_event
pending-is_event_example =
    pending-is_event asked on_hold (pending_context_from_event (stored_as asking)) asked-on_hold
      refl

accepted-iff_IsAdmissible_example :
    (validate_event_business_rules granting asked ≡ ok tt) ↔ IsAdmissible granting asked
accepted-iff_IsAdmissible_example = accepted-iff_IsAdmissible granting asked

accepted-is_open_example : is_terminal on_hold.status ≡ false
accepted-is_open_example = accepted-is_open granting asked on_hold granting-accepted asked-on_hold

-- A resolution that decides nothing.
abbrev undecided : EventPayload
undecided = record granting {
  approval = record (granting.approval) { status = night_ledger.Schema.not_required };
}

undecided_resolution-unprojectable_example :
    (validate_event_business_rules undecided asked ≡ ok tt)
    × (project_run_status (asked ++ stored_as undecided ∷ [])
        ≡ conflict "approval.status" "approval_resolved must use approved or rejected status"
            "INVALID_APPROVAL_TRANSITION")
    × (is_ok (validate_event_business_rules finishing (asked ++ stored_as undecided ∷ [])) ≡ false)
unfolding to_terminal_status night_ledger.BusinessRules.find_event_by_id find?
    pending_context_from_event night_ledger.Prelude.Text.is_blank
undecided_resolution-unprojectable_example =
    undecided_resolution-unprojectable undecided asked [] (stored_as undecided) on_hold refl
      asked-on_hold refl finishing (pending_context_from_event (stored_as asking)) refl
      (record { resolves = refl; same_decision = refl; approver = refl; time = refl }) refl refl

-- A resolution at the time of the first event, before the request.
abbrev early : EventPayload
early = record granting { timestamp = triage.timestamp }

abbrev under_way : RunStatusProjection
under_way = record { status = running; pending_approval = none }

triage-under_way : project_run_status (stored_as triage ∷ []) ≡ ok under_way
unfolding project_run_status night_ledger.RunStatus.step to_terminal_status
    night_ledger.RunStatus.advance is_resolution_signal is_pending_signal
    night_ledger.RunStatus.observe
triage-under_way = refl

early_resolution-unprojectable_example :
    (validate_event_business_rules early asked ≡ ok tt)
    × (project_run_status (place (stored_as early) asked)
        ≡ conflict "approval" "approval_resolved encountered without pending approval"
            "NO_PENDING_APPROVAL")
unfolding to_terminal_status night_ledger.BusinessRules.find_event_by_id find?
    pending_context_from_event night_ledger.Prelude.Text.is_blank
early_resolution-unprojectable_example =
    early_resolution-unprojectable early (stored_as triage ∷ []) [] (stored_as asking)
      (stored_as early) under_way on_hold (pending_context_from_event (stored_as asking)) refl
      (refl, tt) refl triage-under_way refl refl refl asked-on_hold refl
      (record { resolves = refl; same_decision = refl; approver = refl; time = refl }) refl refl

project_run_journal-iff-readable_example :
    (project_run_journal "run_1" asked
      ≡ ok (record { run_id = "run_1"; entries = entries_from "run_1" 1 asked }))
    ↔ (AllReadable "run_1" none asked
        × (◌≡◌ {A = RunJournalProjection}
            (record { run_id = "run_1"; entries = entries_from "run_1" 1 asked })
            (record { run_id = "run_1"; entries = entries_from "run_1" 1 asked })))
project_run_journal-iff-readable_example =
    project_run_journal-iff-readable "run_1" asked
      (record { run_id = "run_1"; entries = entries_from "run_1" 1 asked })
