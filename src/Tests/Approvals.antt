-- ===== src/Tests/Approvals.antt =====
-- Ingestion, and the registration, list and resolution of approvals, at concrete inputs.
use night_ledger.Prelude.{
  ℕ, ◌+◌, ◌≡◌, refl, true, false, Option, none, some, List, [], ◌∷◌, any, filter, String, ap, ◌∙◌,
}
use night_ledger.Prelude.Time.{demo_time, milliseconds}
use night_ledger.Schema.{StoredEvent, low}
use night_ledger.Errors.{ok, raise, Error}
use night_ledger.EventStore.Memory
use night_ledger.EventStore.Memory.{Memory as MemoryState, store_of, memory_store}
use night_ledger.EventStore.Memory.Invariant.{store_of-IsValid, IsValid}
use night_ledger.EventStore.Memory.Contract.{memory_store-IsEventStore}
use night_ledger.EventStore.Contract.{IsUnchanged, has_id}
use night_ledger.RunStatus.{
  RunStatusProjection, paused, project_run_status, pending_context_from_event,
  PendingApprovalContext,
}
use night_ledger.Ingest.{ingest_event, IngestReply}
use night_ledger.Ingest.Outcome.{IsIngested, ingest_event-stores}
use night_ledger.Approval.{
  Call, find_event_by_id, is_pending_signal, was_event_resolved, is_lifecycle, of_decision_id,
}
use night_ledger.Prelude.Text.{is_blank}
use night_ledger.Approval.Drafts.{approve, resolution_draft}
use night_ledger.Approval.Resolve.{resolve_pending_approval}
use night_ledger.Approval.Resolve.Outcome.{IsResolvable, resolve_pending_approval-IsResolvable}
use night_ledger.Approval.Resolve.Settled.{IsSettled, resolve_pending_approval-settles}
use night_ledger.Approval.Register.{ApprovalRequest, register_pending_approval_request}
use night_ledger.Approval.Register.Unique.{IsRegistered, register_pending_approval_request-once}
use night_ledger.Approval.Queue.{pending_item, items_of_run}
use night_ledger.Approval.Queue.Items.{items_of_run-projected}
use night_ledger.Tests.{triage, asking, granting, id_digest, stored_as, as_given}

abbrev pub waiting : MemoryState
waiting = store_of id_digest (triage ∷ asking ∷ [])

pub waiting-IsValid : IsValid waiting
waiting-IsValid = store_of-IsValid id_digest (triage ∷ asking ∷ [])

abbrev request_stored : StoredEvent
request_stored = record (stored_as asking) { prev_hash = some "sha256:evt_1" }

abbrev pub asked : List StoredEvent
asked = stored_as triage ∷ request_stored ∷ []

pub asked-listed : Memory.list_by_run_id waiting "run_1" ≡ asked
unfolding Memory.list_by_run_id night_ledger.Prelude.Sort.sort_by Memory.records
    night_ledger.Prelude.Dict.lookup Memory.append_all Memory.append Memory.contains Memory.commit
    night_ledger.Prelude.Dict.insert Memory.key_leb Memory.new_record Memory.to_stored_event
    night_ledger.EventStore.build_event_hash Memory.later_timestamp
asked-listed = refl

abbrev call : Call
call = record {
  now = demo_time + milliseconds 5;
  uuid8 = "0a1b2c3d";
  uuid10 = "0a1b2c3d4e";
  elapsed_ms = 7;
}

abbrev context : PendingApprovalContext
context = pending_context_from_event request_stored

abbrev pub on_hold : RunStatusProjection
on_hold = record { status = paused; pending_approval = some context }

pub asked-on_hold : project_run_status asked ≡ ok on_hold
unfolding project_run_status night_ledger.RunStatus.step night_ledger.RunStatus.to_terminal_status
    night_ledger.RunStatus.advance night_ledger.RunStatus.is_resolution_signal
    night_ledger.RunStatus.is_pending_signal night_ledger.RunStatus.observe
    night_ledger.RunStatus.request
asked-on_hold = refl

asked-once : filter (has_id "evt_2") (Memory.list_all waiting) ≡ request_stored ∷ []
unfolding Memory.list_all filter night_ledger.Prelude.Sort.sort_by Memory.flatten
    night_ledger.Prelude.Dict.values Memory.append_all Memory.append Memory.contains
    night_ledger.Prelude.Dict.lookup Memory.commit night_ledger.Prelude.Dict.insert Memory.records
    Memory.key_leb Memory.new_record Memory.to_stored_event Memory.later_timestamp
    night_ledger.EventStore.build_event_hash
asked-once = refl

asked-is_pending : is_pending_signal request_stored ≡ true
unfolding is_pending_signal
asked-is_pending = refl

asked-unresolved : was_event_resolved asked "evt_2" ≡ false
unfolding was_event_resolved
asked-unresolved = refl

context-id : context.event_id ≡ "evt_2"
unfolding pending_context_from_event
context-id = refl

ready : IsResolvable (memory_store id_digest) waiting "evt_2" request_stored
ready = record {
  unique = asked-once;
  pending = asked-is_pending;
  unresolved = ap (λ l. was_event_resolved l "evt_2") asked-listed ∙ asked-unresolved;
  context = context;
  current = ap project_run_status asked-listed ∙ asked-on_hold;
  asked = context-id;
}

resolution-fresh :
    any (has_id (resolution_draft call request_stored asked approve "ada" none).id) asked ≡ false
unfolding resolution_draft any night_ledger.Prelude.Text.remove
    night_ledger.Prelude.Time.format_timestamp
resolution-fresh = refl

fresh :
    any
      (has_id
        (resolution_draft call request_stored
          (Memory.list_by_run_id waiting "run_1")
          approve
          "ada"
          none).id)
      (Memory.list_by_run_id waiting "run_1")
    ≡ false
fresh =
    ap (λ l. any (has_id (resolution_draft call request_stored l approve "ada" none).id) l)
      asked-listed
    ∙ resolution-fresh

named : is_blank "ada" ≡ false
unfolding is_blank
named = refl

settled :
    IsSettled
      (memory_store id_digest)
      IsValid
      (memory_store-IsEventStore id_digest)
      as_given
      call
      "evt_2"
      approve
      "ada"
      none
      waiting
      request_stored
      (resolve_pending_approval
        (memory_store id_digest)
        as_given
        call
        "evt_2"
        approve
        "ada"
        none
        waiting)
settled =
    resolve_pending_approval-settles (memory_store id_digest) IsValid
      (memory_store-IsEventStore id_digest) as_given call "evt_2" approve "ada" none waiting
      request_stored waiting-IsValid ready refl named fresh refl

resolve_pending_approval-settles_example :
    IsSettled
      (memory_store id_digest)
      IsValid
      (memory_store-IsEventStore id_digest)
      as_given
      call
      "evt_2"
      approve
      "ada"
      none
      waiting
      request_stored
      (resolve_pending_approval
        (memory_store id_digest)
        as_given
        call
        "evt_2"
        approve
        "ada"
        none
        waiting)
resolve_pending_approval-settles_example =
    resolve_pending_approval-settles (memory_store id_digest) IsValid
      (memory_store-IsEventStore id_digest) as_given call "evt_2" approve "ada" none waiting
      request_stored waiting-IsValid ready refl named fresh refl

resolve_pending_approval-IsResolvable_example :
    (target : StoredEvent) × IsResolvable (memory_store id_digest) waiting "evt_2" target
resolve_pending_approval-IsResolvable_example =
    resolve_pending_approval-IsResolvable (memory_store id_digest) as_given call "evt_2" approve
      "ada" none waiting settled.reply settled.returned

items_of_run-projected_example :
    ((c : PendingApprovalContext)
      → on_hold.pending_approval ≡ some c
      → (e : StoredEvent) × (find_event_by_id asked c.event_id ≡ some e)
        × (items_of_run asked ≡ ok (pending_item c e ∷ [])))
    × (on_hold.pending_approval ≡ none → items_of_run asked ≡ ok [])
items_of_run-projected_example = items_of_run-projected asked on_hold asked-on_hold

abbrev second_request : ApprovalRequest
second_request = record {
  decision_id = "dec_2";
  run_id = "run_2";
  requested_by = "agent";
  title = "Refund";
  details = "Refund the order";
  risk_level = low;
  reason = none;
}

new_decision : filter is_lifecycle (filter (of_decision_id "dec_2") (Memory.list_all waiting)) ≡ []
unfolding Memory.list_all filter night_ledger.Prelude.Sort.sort_by Memory.flatten
    night_ledger.Prelude.Dict.values Memory.append_all Memory.append Memory.contains
    night_ledger.Prelude.Dict.lookup Memory.commit night_ledger.Prelude.Dict.insert Memory.records
    Memory.key_leb Memory.new_record Memory.to_stored_event
new_decision = refl

run_2-empty : Memory.list_by_run_id waiting "run_2" ≡ []
unfolding Memory.list_by_run_id night_ledger.Prelude.Sort.sort_by Memory.records
    night_ledger.Prelude.Dict.lookup Memory.append_all Memory.append Memory.contains Memory.commit
    night_ledger.Prelude.Dict.insert
run_2-empty = refl

none_there : (id : String) → any (has_id id) (Memory.list_by_run_id waiting "run_2") ≡ false
unfolding any
none_there id = ap (any (has_id id)) run_2-empty ∙ refl

register_pending_approval_request-once_example :
    IsRegistered
      (memory_store id_digest)
      as_given
      IsValid
      (memory_store-IsEventStore id_digest)
      call
      second_request
      waiting
      waiting-IsValid
      (register_pending_approval_request
        (memory_store id_digest)
        as_given
        call
        second_request
        waiting)
register_pending_approval_request-once_example =
    register_pending_approval_request-once (memory_store id_digest) as_given IsValid
      (memory_store-IsEventStore id_digest) call second_request waiting waiting-IsValid refl
      (none_there _) new_decision

ingest_event-stores_example :
    ((reply : IngestReply)
      → (ingest_event (memory_store id_digest) as_given granting waiting).1 ≡ ok reply
      → IsIngested
          (memory_store id_digest)
          as_given
          granting
          waiting
          (ingest_event (memory_store id_digest) as_given granting waiting).0
          reply)
    × ((x : Error)
        → (ingest_event (memory_store id_digest) as_given granting waiting).1 ≡ raise x
        → IsUnchanged
            (memory_store id_digest)
            waiting
            (ingest_event (memory_store id_digest) as_given granting waiting).0)
ingest_event-stores_example =
    ingest_event-stores (memory_store id_digest) as_given granting waiting IsValid
      (memory_store-IsEventStore id_digest) waiting-IsValid
