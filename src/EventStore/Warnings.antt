-- ===== src/EventStore/Warnings.antt =====
-- services/event_store.py: RULE-CORE-005, the integrity warning, in the two stores.
use night_ledger.Prelude.{
  Bool, true, false, ◌≡◌, ◌≢◌, sym, ◌∙◌, Option, none, some, List, [], ◌∷◌, any, any-map, ◌<◌,
  arith, ltb, eq_iff, eq_refl, inl, inr, filter, get_last?,
}
use night_ledger.Prelude.Dict.{lookup, insert}
use night_ledger.Prelude.Sort.{sort_by}
use night_ledger.Prelude.Sort.Laws.{any-sort_by}
use night_ledger.Schema.{EventPayload, StoredEvent}
use night_ledger.Errors.{Result, ok, raise, ok-injective}
use night_ledger.EventStore.{Digest}
use night_ledger.EventStore.Memory
use night_ledger.EventStore.Memory.{StoredRecord, Memory, store_of}
use night_ledger.EventStore.Memory.Invariant
use night_ledger.EventStore.Memory.Contract
use night_ledger.EventStore.Sqlite
use night_ledger.EventStore.Sqlite.{Database, Row}

-- Is an event of the list later than this time?
abbrev pub has_later : EventPayload → List StoredEvent → Bool
has_later event = any (λ (s : StoredEvent). ltb event.timestamp s.timestamp)

module _ (digest : Digest) (m : Memory) (event : EventPayload) (valid : Invariant.IsValid m) where
  new_record-warning :
      (Memory.new_record digest m event).integrity_warning
      ≡ has_later event (Memory.list_by_run_id m event.run_id)
  unfolding Memory.new_record Memory.list_by_run_id Memory.to_stored_event
  new_record-warning =
      let rs = Memory.records m event.run_id in
      valid.older event.run_id event.timestamp
      ∙ sym (
          any-map (λ (s : StoredEvent). ltb event.timestamp s.timestamp) Memory.to_stored_event
            (sort_by Memory.key_leb rs)
          ∙ any-sort_by Memory.key_leb (λ (r : StoredRecord). ltb event.timestamp r.timestamp) rs)

-- The in-memory store marks an event that it accepts with the integrity warning exactly if it
-- holds a later event of the run.
pub memory_warning :
    (digest : Digest) (events : List EventPayload) (event : EventPayload) (e : StoredEvent)
    → (Memory.append digest (store_of digest events) event).1 ≡ ok e
    → e.integrity_warning
      ≡ has_later event (Memory.list_by_run_id (store_of digest events) event.run_id)
memory_warning digest events event e h =
    let valid = Invariant.store_of-IsValid digest events in
    elim (Contract.append-cases digest (store_of digest events) event valid) [
      | inl c ↦ absurd (ground (arith, c))
      | inr c ↦
          let same = ok-injective (rw c at h) in
          rw (← same) (
            unfold Memory.to_stored_event in
            new_record-warning digest (store_of digest events) event valid)
    ]

abbrev pub warning_of : Result StoredEvent → Option Bool
warning_of (ok e) = some e.integrity_warning
warning_of (raise _) = none

module _ (digest : Digest) (a b c : EventPayload) (b_run : b.run_id ≡ a.run_id)
    (c_run : c.run_id ≡ a.run_id) (a_b : a.id ≢ b.id) (a_c : a.id ≢ c.id) (b_c : b.id ≢ c.id)
    (later : b.timestamp < c.timestamp) (earlier : c.timestamp < a.timestamp) where
  memory_warns : warning_of (Memory.append digest (store_of digest (a ∷ b ∷ [])) c).1 ≡ some true
  unfolding Memory.append_all Memory.append Memory.commit Memory.records Memory.contains
      Memory.later_timestamp Memory.new_record Memory.to_stored_event lookup insert
  memory_warns = ground (
    arith,
    eq_iff a.run_id b.run_id,
    eq_iff a.run_id c.run_id,
    eq_iff a.id b.id,
    eq_iff a.id c.id,
    eq_iff b.id c.id,
    eq_refl a.run_id,
  )

  sqlite_accepts :
      warning_of (Sqlite.append digest (Sqlite.database_of digest (a ∷ b ∷ [])) c).1 ≡ some false
  unfolding Sqlite.append_all Sqlite.append Sqlite.new_row Sqlite.last_row Sqlite.to_stored_event
      filter any get_last?
  sqlite_accepts = ground (
    arith,
    eq_iff a.run_id b.run_id,
    eq_iff a.run_id c.run_id,
    eq_iff b.run_id c.run_id,
    eq_iff a.id b.id,
    eq_iff a.id c.id,
    eq_iff b.id c.id,
    eq_refl a.run_id,
  )

  -- After an event of a run and then an earlier one, a third of the run that lies between the two
  -- in time, all with identifiers of their own, is marked with the integrity warning by the in-memory store, and not by the SQLite store: the
  -- one keeps the latest timestamp, the other reads that of the row inserted last.
  pub stores_disagree :
      (warning_of (Memory.append digest (store_of digest (a ∷ b ∷ [])) c).1 ≡ some true)
      × (warning_of (Sqlite.append digest (Sqlite.database_of digest (a ∷ b ∷ [])) c).1
          ≡ some false)
  stores_disagree = (memory_warns, sqlite_accepts)
