-- ===== src/Handlers/Seeded.antt =====
-- controllers/events_controller.py: the store after the reset of the demonstration.
use night_ledger.Prelude.{
  String, Bool, true, false, ◌≡◌, refl, Option, some, none, List, [], ◌∷◌, All, any, not, ap, sym,
  ◌∙◌, inl, inr, eq_refl, ◌⊎◌, Bool-cases,
}
use night_ledger.Prelude.Dict.{lookup, lookup-insert}
use night_ledger.Prelude.Time.{format_timestamp}
use night_ledger.Schema.{EventPayload}
use night_ledger.Errors.{Result, ok, raise, duplicate_event, Result-cases, is_ok}
use night_ledger.EventStore.{Digest, EventStore}
use night_ledger.EventStore.Contract.{IsEventStore, IsUnchanged, has_id}
use night_ledger.EventStore.Memory
use night_ledger.EventStore.Memory.{Memory, memory_store}
use night_ledger.EventStore.Sqlite.{Database, sqlite_store, list_by_run_id}
use night_ledger.EventStore.Sqlite.Contract.{IsValid, sqlite_store-IsEventStore}
use night_ledger.Ingest.{Validated, valid, reraise}
use night_ledger.RunStatus.{paused}
use night_ledger.Handlers.{get_run_status}
use night_ledger.Handlers.Seed.{
  seed_run, first_payload, triage_inbox_seed_payloads, seed_triage_inbox, SeedReply, StoreSettings,
  Process, in_memory, uses_sqlite, configured_path, build_event_store, get_event_store, database_at,
  opened, reset_seed_triage_inbox_demo,
}

-- The seed of an empty in-memory store leaves the run of the demonstration paused on its third event.
seeded-paused :
    (digest : Digest) (model_validate : EventPayload → Validated)
    → All (λ (event : EventPayload). model_validate event ≡ valid event) triage_inbox_seed_payloads
    → get_run_status
        (memory_store digest)
        seed_run
        (seed_triage_inbox (memory_store digest) model_validate Memory.empty).0
      ≡ ok (record {
        run_id = seed_run;
        status = paused;
        pending_approval = some (record {
          event_id = "evt_triage_inbox_003";
          requested_by = some "agent";
          requested_at = "2026-02-16T08:00:20Z";
          reason = some "Refund amount exceeds policy threshold";
        });
      })
unfolding triage_inbox_seed_payloads seed_triage_inbox get_run_status
    night_ledger.Ingest.validate_event_payload format_timestamp Memory.append Memory.contains
    Memory.commit Memory.to_stored_event Memory.new_record Memory.later_timestamp
    Memory.list_by_run_id Memory.records Memory.key_leb night_ledger.EventStore.build_event_hash
    night_ledger.Prelude.Sort.sort_by night_ledger.Prelude.Dict.lookup
    night_ledger.Prelude.Dict.insert night_ledger.RunStatus.project_run_status
    night_ledger.RunStatus.step night_ledger.RunStatus.to_terminal_status
    night_ledger.RunStatus.advance night_ledger.RunStatus.is_pending_signal
    night_ledger.RunStatus.is_resolution_signal night_ledger.RunStatus.observe
    night_ledger.RunStatus.request night_ledger.RunStatus.terminal_step_status
    night_ledger.RunStatus.pending_context_from_event
seeded-paused digest model_validate (a, (b, (c, u))) = rw (a, b, c) refl

-- The reply to a seed that goes through.
abbrev pub seed_reply : SeedReply
seed_reply = record {
  event_count = 3;
  seeded_event_ids = "evt_triage_inbox_001" ∷ "evt_triage_inbox_002" ∷ "evt_triage_inbox_003" ∷ [];
}

seeded-replies :
    (digest : Digest) (model_validate : EventPayload → Validated)
    → All (λ (event : EventPayload). model_validate event ≡ valid event) triage_inbox_seed_payloads
    → (seed_triage_inbox (memory_store digest) model_validate Memory.empty).1 ≡ ok seed_reply
unfolding triage_inbox_seed_payloads seed_triage_inbox get_run_status
    night_ledger.Ingest.validate_event_payload format_timestamp Memory.append Memory.contains
    Memory.commit Memory.to_stored_event Memory.new_record Memory.later_timestamp
    Memory.list_by_run_id Memory.records Memory.key_leb night_ledger.EventStore.build_event_hash
    night_ledger.Prelude.Sort.sort_by night_ledger.Prelude.Dict.lookup
    night_ledger.Prelude.Dict.insert night_ledger.RunStatus.project_run_status
    night_ledger.RunStatus.step night_ledger.RunStatus.to_terminal_status
    night_ledger.RunStatus.advance night_ledger.RunStatus.is_pending_signal
    night_ledger.RunStatus.is_resolution_signal night_ledger.RunStatus.observe
    night_ledger.RunStatus.request night_ledger.RunStatus.terminal_step_status
    night_ledger.RunStatus.pending_context_from_event
seeded-replies digest model_validate (a, (b, (c, u))) = rw (a, b, c) refl

-- The seed of a store that holds the first event of the demonstration is refused.
seed-occupied :
    {S : Type 0} (store : EventStore S) (Valid : S → Type 0) (contract : IsEventStore store Valid)
    (model_validate : EventPayload → Validated) (s : S)
    → Valid s
    → All (λ (event : EventPayload). model_validate event ≡ valid event) triage_inbox_seed_payloads
    → any (has_id "evt_triage_inbox_001") (store.list_by_run_id s seed_run) ≡ true
    → ((seed_triage_inbox store model_validate s).1
        ≡ raise (duplicate_event "evt_triage_inbox_001" seed_run))
      × IsUnchanged store s (seed_triage_inbox store model_validate s).0
unfolding triage_inbox_seed_payloads seed_triage_inbox night_ledger.Ingest.validate_event_payload
seed-occupied store Valid contract model_validate s held (a, rest) there =
    elim (Result-cases (store.append s first_payload).1) [
      | inl (e, stored) ↦ absurd (
          let fails = contract.unique s first_payload held ∙ ap not there in
          let same = ap is_ok stored in cc)
      | inr (x, failed) ↦
          let (duplicate, unchanged) = contract.refused s first_payload x held failed in
          rw (a, failed, duplicate) (refl, unchanged)
    ]

module _ (digest : Digest) (model_validate : EventPayload → Validated) (settings : StoreSettings)
    (process : Process) where
  abbrev reset : Process × Result SeedReply
  reset = reset_seed_triage_inbox_demo digest model_validate settings process

  abbrev pub file_of : Process → Database
  file_of = database_at (configured_path settings)

  -- The reply has the three identifiers, and the store that the process has from then on shows the
  -- run of the demonstration paused on its third event.
  abbrev pub IsSeeded : Type 0
  IsSeeded =
      (reset.1 ≡ ok seed_reply)
      × ((memory : Memory) × ((get_event_store settings reset.0).1 ≡ in_memory memory)
          × (get_run_status (memory_store digest) seed_run memory
              ≡ ok (record {
                run_id = seed_run;
                status = paused;
                pending_approval = some (record {
                  event_id = "evt_triage_inbox_003";
                  requested_by = some "agent";
                  requested_at = "2026-02-16T08:00:20Z";
                  reason = some "Refund amount exceeds policy threshold";
                });
              })))

  -- The reply is the error of a duplicate, and the file lists what it did.
  abbrev pub IsOccupied : Type 0
  IsOccupied =
      (reset.1 ≡ raise (duplicate_event "evt_triage_inbox_001" seed_run))
      × IsUnchanged (sqlite_store digest) (file_of process) (file_of reset.0)

  module _
      (accepts : All
        (λ (event : EventPayload). model_validate event ≡ valid event)
        triage_inbox_seed_payloads) where
    memory-IsSeeded : uses_sqlite settings ≡ false → IsSeeded
    unfolding reset_seed_triage_inbox_demo build_event_store get_event_store
    memory-IsSeeded memory = rw memory (
      seeded-replies digest model_validate accepts,
      (_, refl, seeded-paused digest model_validate accepts),
    )

    sqlite-IsOccupied :
        uses_sqlite settings ≡ true
        → IsValid (file_of process)
        → any (has_id "evt_triage_inbox_001") (list_by_run_id (file_of process) seed_run) ≡ true
        → IsOccupied
    unfolding reset_seed_triage_inbox_demo build_event_store database_at
    sqlite-IsOccupied sqlite held there =
        let path = configured_path settings in
        let db = opened (lookup path process.files) in
        let (refused, unchanged) =
          seed-occupied (sqlite_store digest) IsValid (sqlite_store-IsEventStore digest)
            model_validate db held accepts there in
        rw sqlite (
          refused,
          rw
              (
                lookup-insert path path
                    (seed_triage_inbox (sqlite_store digest) model_validate db).0 process.files,
                eq_refl path,
              )
              unchanged,
        )

    -- With the in-memory backend, and a validation that accepts the three payloads as they are,
    -- the reset answers with their identifiers whatever the process held, and the run of the
    -- demonstration is paused on the third event from then on. With the SQLite backend, where the
    -- configured file holds the first event of the demonstration, as after a reset, the reset is
    -- refused as a duplicate and the file lists what it did.
    pub reset_seed-by_backend :
        IsValid (file_of process)
        → (uses_sqlite settings ≡ true
            → any (has_id "evt_triage_inbox_001") (list_by_run_id (file_of process) seed_run)
              ≡ true)
        → ((uses_sqlite settings ≡ false) × IsSeeded) ⊎ ((uses_sqlite settings ≡ true) × IsOccupied)
    reset_seed-by_backend held there = elim (Bool-cases (uses_sqlite settings)) [
      | inr memory ↦ inl (memory, memory-IsSeeded memory)
      | inl sqlite ↦ inr (sqlite, sqlite-IsOccupied sqlite held (there sqlite))
    ]
