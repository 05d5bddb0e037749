-- ===== src/Journal/Readable.antt =====
-- journal_projection_service.py: which event streams have a journal, and what it holds.
use night_ledger.Prelude.{
  ℕ, ◌+◌, String, Bool, true, false, ◌&&◌, ◌||◌, ◌≡◌, refl, ap, sym, ◌∙◌, ◌↔◌, Option, none, some,
  List, [], ◌∷◌, arith, str_eq, is_empty,
}
use night_ledger.Prelude.Text.{is_blank}
use night_ledger.Prelude.Time.{Datetime}
use night_ledger.Schema.{StoredEvent, EventPayload, is_action, is_high}
use night_ledger.Errors.{ok, >>=-eq-ok, ok-injective}
use night_ledger.Journal.{
  JournalEntry, RunJournalProjection, check_event, journal_from, journal_entry, project_run_journal,
  is_before, required_readable_field, assert_traceability_identity,
  assert_risky_action_has_evidence,
}

abbrev pub is_risky : EventPayload → Bool
is_risky payload =
    is_action payload.type && (is_high payload.risk_level || payload.requires_approval)

-- An event that the journal can show, after one of the given time.
pub record IsReadable (run_id : String) (last : Option Datetime) (event : StoredEvent)
    : Type 0 where
  pub run : str_eq event.run_id run_id ≡ true
  pub order : is_before event.timestamp last ≡ false
  pub id : str_eq event.payload.id event.id ≡ true
  pub payload_run : str_eq event.payload.run_id event.run_id ≡ true
  pub title : is_blank event.payload.title ≡ false
  pub details : is_blank event.payload.details ≡ false
  pub evidence : (is_risky event.payload && is_empty event.payload.evidence) ≡ false

abbrev pub AllReadable : String → Option Datetime → List StoredEvent → Type 0
AllReadable run_id last [] = Unit
AllReadable run_id last (e ∷ es) =
    IsReadable run_id last e × AllReadable run_id (some e.timestamp) es

check_event-IsReadable :
    (run_id : String) (last : Option Datetime) (e : StoredEvent)
    → check_event run_id last e ≡ ok tt
    → IsReadable run_id last e
unfolding check_event required_readable_field assert_traceability_identity
    assert_risky_action_has_evidence
check_event-IsReadable run_id last e h = record {
  run = ground arith;
  order = ground arith;
  id = ground arith;
  payload_run = ground arith;
  title = ground arith;
  details = ground arith;
  evidence = ground arith;
}

IsReadable-check_event :
    (run_id : String) (last : Option Datetime) (e : StoredEvent)
    → IsReadable run_id last e
    → check_event run_id last e ≡ ok tt
unfolding check_event required_readable_field assert_traceability_identity
    assert_risky_action_has_evidence
IsReadable-check_event run_id last e h =
    ground (arith, h.run, h.order, h.id, h.payload_run, h.title, h.details, h.evidence)

module _ (run_id : String) where
  -- The entries are those of the events, with their numbers.
  abbrev pub entries_from : ℕ → List StoredEvent → List JournalEntry
  entries_from index [] = []
  entries_from index (e ∷ es) = journal_entry run_id index e ∷ entries_from (index + 1) es

  journal_from-returned :
      (index : ℕ) (last : Option Datetime) (events : List StoredEvent) (entries : List JournalEntry)
      → journal_from run_id index last events ≡ ok entries
      → AllReadable run_id last events × (entries ≡ entries_from index events)
  unfolding journal_from
  journal_from-returned index last [] entries h = (tt, sym (ok-injective h))
  journal_from-returned index last (e ∷ es) entries h =
      let (u, checked, more) = >>=-eq-ok (check_event run_id last e) (λ _. _) h in
      let (rest, run, done) =
        >>=-eq-ok (journal_from run_id (index + 1) (some e.timestamp) es) (λ _. _) more in
      let (readable, same) = journal_from-returned (index + 1) (some e.timestamp) es rest run in
      (
        (check_event-IsReadable run_id last e checked, readable),
        sym (ok-injective done) ∙ ap (λ l. journal_entry run_id index e ∷ l) same,
      )

  journal_from-readable :
      (index : ℕ) (last : Option Datetime) (events : List StoredEvent)
      → AllReadable run_id last events
      → journal_from run_id index last events ≡ ok (entries_from index events)
  unfolding journal_from
  journal_from-readable index last [] h = refl
  journal_from-readable index last (e ∷ es) h =
      rw
        (
          IsReadable-check_event run_id last e h.0,
          journal_from-readable (index + 1) (some e.timestamp) es h.1,
        )
        refl

  -- An event stream has a journal exactly when all its events are of the run, in ascending order
  -- of time, traceable to their payloads, with a title and details that are not blank, and with
  -- evidence for each risky action. Its journal has one entry for each event, in the same order,
  -- numbered from one.
  pub project_run_journal-iff-readable :
      (events : List StoredEvent) (j : RunJournalProjection)
      → (project_run_journal run_id events ≡ ok j) ↔ (
          AllReadable run_id none events
          × (j ≡ record { run_id = run_id; entries = entries_from 1 events }))
  unfolding project_run_journal
  project_run_journal-iff-readable events j = (
    λ h.
        let (entries, run, done) = >>=-eq-ok (journal_from run_id 1 none events) (λ _. _) h in
        let (readable, same) = journal_from-returned 1 none events entries run in
        (
          readable,
          sym (ok-injective done)
              ∙ ap (λ (l : List JournalEntry). record { run_id = run_id; entries = l }) same,
        ),
    λ h. rw (journal_from-readable 1 none events h.0, h.1) refl,
  )
