-- ===== src/Handlers/Consistent.antt =====
-- controllers/events_controller.py: what the reads of a run have to do with each other.
use night_ledger.Prelude.{String, List, [], ◌∷◌, ◌≡◌, ◌↔◌, refl, sym, ap, ◌∙◌}
use night_ledger.Schema.{StoredEvent}
use night_ledger.Errors.{ok, >>=-eq-ok, ok-injective}
use night_ledger.EventStore.{EventStore}
use night_ledger.RunStatus.{project_run_status}
use night_ledger.Journal.{RunJournalProjection, project_run_journal}
use night_ledger.Handlers.{RunStatusReply, some_events, get_run_status, get_run_journal}

some_events-eq :
    (run_id : String) (events found : List StoredEvent)
    → some_events run_id events ≡ ok found
    → events ≡ found
some_events-eq run_id [] found h = cc
some_events-eq run_id (e ∷ es) found h = ok-injective h

module _ {S : Type 0} (store : EventStore S) where
  -- A run has a journal to read exactly if it has a status to read and its events have a journal,
  -- which is then the one that is read.
  pub get_run_journal-iff-status :
      (run_id : String) (s : S) (journal : RunJournalProjection)
      → (get_run_journal store run_id s ≡ ok journal) ↔ (
          (project_run_journal run_id (store.list_by_run_id s run_id) ≡ ok journal)
          × ((reply : RunStatusReply) × (get_run_status store run_id s ≡ ok reply)))
  unfolding get_run_journal get_run_status
  get_run_journal-iff-status run_id s journal = (there, back)
    where
      there :
          get_run_journal store run_id s ≡ ok journal
          → (project_run_journal run_id (store.list_by_run_id s run_id) ≡ ok journal)
            × ((reply : RunStatusReply) × (get_run_status store run_id s ≡ ok reply))
      there h =
          let (events, given, h1) =
            >>=-eq-ok (some_events run_id (store.list_by_run_id s run_id)) (λ _. _) h in
          let (j, read, h2) = >>=-eq-ok (project_run_journal run_id events) (λ _. _) h1 in
          let (p, projected, h3) = >>=-eq-ok (project_run_status events) (λ _. _) h2 in
          (
            ap (project_run_journal run_id)
                  (some_events-eq run_id (store.list_by_run_id s run_id) events given)
                ∙ read
                ∙ h3,
            (
              record { run_id = run_id; status = p.status; pending_approval = p.pending_approval },
              rw (given, projected) refl,
            ),
          )

      back :
          (project_run_journal run_id (store.list_by_run_id s run_id) ≡ ok journal)
            × ((reply : RunStatusReply) × (get_run_status store run_id s ≡ ok reply))
          → get_run_journal store run_id s ≡ ok journal
      back (read, (reply, h)) =
          let (events, given, h1) =
            >>=-eq-ok (some_events run_id (store.list_by_run_id s run_id)) (λ _. _) h in
          let (p, projected, h2) = >>=-eq-ok (project_run_status events) (λ _. _) h1 in
          rw
            (
              given,
              ap (project_run_journal run_id)
                    (sym (some_events-eq run_id (store.list_by_run_id s run_id) events given))
                  ∙ read,
              projected,
            )
            refl
