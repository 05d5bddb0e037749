-- ===== src/EventStore/Sqlite/Contract.antt =====
-- `SQLiteAppendOnlyEventStore` is an append-only store as the protocol promises.
use mathlib.Core.List.{append-nil}
use night_ledger.Prelude.{
  ℕ, ◌+◌, ◌≤◌, String, Bool, true, false, not, ◌≡◌, refl, ap, sym, ◌∙◌, List, [], ◌∷◌, ◌++◌, map,
  filter, filter-append, any, any-map, All, All-append, Bool-cases, inl, inr, ◌⊎◌, arith, str_eq,
  if◌then◌else◌,
}
use night_ledger.Prelude.Sort.{sort_by}
use night_ledger.Prelude.Sort.Laws.{
  IsTotal, All-sort_by, any-sort_by, sort_by-snoc, map-insert_after,
}
use night_ledger.Schema.{EventPayload, StoredEvent}
use night_ledger.Errors.{ok, raise, duplicate_event, Error, is_ok, ok-injective, raise-injective}
use night_ledger.EventStore.{Digest}
use night_ledger.EventStore.Contract.{
  IsEventStore, IsRecordOf, IsAppended, IsUnchanged, chrono_leb, place, has_id,
}
use night_ledger.EventStore.Sqlite.{
  Row, Database, of_run, same_event, to_stored_event, row_leb, new_row, append, list_by_run_id,
  list_all, sqlite_store, append_all, created, database_of,
}

abbrev pub IsNumbered : ℕ → Row → Type 0
IsNumbered n row = row.sequence ≤ n

-- No row has a sequence that was not given out.
pub record IsValid (db : Database) : Type 0 where
  pub numbers : All (IsNumbered db.last_sequence) db.rows

All-mono : (n : ℕ) (rows : List Row) → All (IsNumbered n) rows → All (IsNumbered (n + 1)) rows
All-mono n [] h = tt
All-mono n (r ∷ rows) h = (omega (arith, h.0), All-mono n rows h.1)

All-filter :
    (n : ℕ) (p : Row → Bool) (rows : List Row)
    → All (IsNumbered n) rows
    → All (IsNumbered n) (filter p rows)
unfolding filter
All-filter n p [] h = tt
All-filter n p (r ∷ rows) h = elim (Bool-cases (p r)) [
  | inl e ↦ rw e (h.0, All-filter n p rows h.1)
  | inr e ↦ rw e (All-filter n p rows h.1)
]

row_leb-IsTotal : IsTotal row_leb
unfolding row_leb
row_leb-IsTotal = record { total = λ x y h. ground arith; trans = λ x y z h k. ground arith }

module _ (n : ℕ) (x : Row) (number : x.sequence ≡ n + 1) where
  last_key :
      (l : List Row)
      → All (IsNumbered n) l
      → All (λ y. row_leb y x ≡ chrono_leb (to_stored_event y) (to_stored_event x)) l
  unfolding row_leb to_stored_event
  last_key [] h = tt
  last_key (y ∷ l) h = (ground (arith, h.0), last_key l h.1)

  -- Sorting the rows with one more that has the greatest sequence.
  sorted-snoc :
      (l : List Row)
      → All (IsNumbered n) l
      → map to_stored_event (sort_by row_leb (l ++ x ∷ []))
        ≡ place (to_stored_event x) (map to_stored_event (sort_by row_leb l))
  sorted-snoc l h =
      ap (map to_stored_event) (sort_by-snoc row_leb row_leb-IsTotal l x)
      ∙ map-insert_after row_leb chrono_leb to_stored_event x (sort_by row_leb l)
          (last_key (sort_by row_leb l) (All-sort_by row_leb (IsNumbered n) l h))

-- A row of the event is a row of the run with the identifier.
any-same_event :
    (event : EventPayload) (rows : List Row)
    → any (same_event event) rows
      ≡ any (λ row. str_eq row.event_id event.id) (filter (of_run event.run_id) rows)
unfolding any filter
any-same_event event [] = refl
any-same_event event (r ∷ rows) = ground (arith, any-same_event event rows)

module _ (digest : Digest) (db : Database) (event : EventPayload) (valid : IsValid db) where
  abbrev new : Row
  new = new_row digest db event

  abbrev appended : Database
  appended = record { rows = db.rows ++ new ∷ []; last_sequence = db.last_sequence + 1 }

  new-number : new.sequence ≡ db.last_sequence + 1
  unfolding new_row
  new-number = refl

  timeline-append :
      (run_id : String)
      → list_by_run_id appended run_id ≡ (
          if str_eq event.run_id run_id
          then place (to_stored_event new) (list_by_run_id db run_id)
          else list_by_run_id db run_id)
  unfolding list_by_run_id
  timeline-append run_id = elim (Bool-cases (str_eq event.run_id run_id)) [
    | inl e ↦
        rw (filter-append (of_run run_id) db.rows (new ∷ []), filter-new_self run_id e, e)
          (sorted-snoc db.last_sequence new new-number (filter (of_run run_id) db.rows)
            (All-filter db.last_sequence (of_run run_id) db.rows valid.numbers))
    | inr e ↦
        rw (filter-append (of_run run_id) db.rows (new ∷ []), filter-new_ne run_id e, append-nil, e)
  ]
    where
      filter-new_self :
          (run_id : String)
          → str_eq event.run_id run_id ≡ true
          → filter (of_run run_id) (new ∷ []) ≡ new ∷ []
      filter-new_self run_id e = unfold filter new_row in ground arith

      filter-new_ne :
          (run_id : String)
          → str_eq event.run_id run_id ≡ false
          → filter (of_run run_id) (new ∷ []) ≡ []
      filter-new_ne run_id e = unfold filter new_row in ground arith

  append-cases :
      ((append digest db event ≡ (db, raise (duplicate_event event.id event.run_id)))
        × (any (same_event event) db.rows ≡ true))
      ⊎ ((append digest db event ≡ (appended, ok (to_stored_event new)))
          × (any (same_event event) db.rows ≡ false))
  unfolding append
  append-cases = elim (Bool-cases (any (same_event event) db.rows)) [
    | inl e ↦ inl (rw e, e)
    | inr e ↦ inr (rw e, e)
  ]

  appended-IsValid : IsValid appended
  unfolding new_row
  appended-IsValid = record {
    numbers =
        All-append (IsNumbered (db.last_sequence + 1)) db.rows (new ∷ [])
          (All-mono db.last_sequence db.rows valid.numbers) (omega arith, tt);
  }

  append-IsValid : IsValid (append digest db event).0
  append-IsValid = elim append-cases [
    | inl (e, _) ↦ rw e valid
    | inr (e, _) ↦ rw e appended-IsValid
  ]

  is_duplicate :
      any (same_event event) db.rows ≡ any (has_id event.id) (list_by_run_id db event.run_id)
  unfolding list_by_run_id to_stored_event
  is_duplicate =
      let rows = filter (of_run event.run_id) db.rows in
      any-same_event event db.rows
      ∙ sym (
          any-map (has_id event.id) to_stored_event (sort_by row_leb rows)
          ∙ any-sort_by row_leb (λ (r : Row). str_eq r.event_id event.id) rows)

  append_unique :
      is_ok (append digest db event).1
      ≡ not (any (has_id event.id) (list_by_run_id db event.run_id))
  append_unique = elim append-cases [
    | inl (e, k) ↦ ground (arith, is_duplicate, e)
    | inr (e, k) ↦ ground (arith, is_duplicate, e)
  ]

  appended-IsRecordOf :
      IsRecordOf event (to_stored_event new)
      × IsAppended (sqlite_store digest) db appended (to_stored_event new)
  unfolding new_row to_stored_event list_all
  appended-IsRecordOf = (
    record { id = refl; run_id = refl; timestamp = refl; payload = refl },
    record {
      timeline = timeline-append;
      everything = sorted-snoc db.last_sequence new new-number db.rows valid.numbers;
    },
  )

  append-stored :
      (e : StoredEvent)
      → (append digest db event).1 ≡ ok e
      → IsRecordOf event e × IsAppended (sqlite_store digest) db (append digest db event).0 e
  append-stored e h = elim append-cases [
    | inl (k, _) ↦ absurd (ground (arith, k))
    | inr (k, _) ↦
        let same : to_stored_event new ≡ e = ok-injective (rw k at h) in
        rw (← same, k) appended-IsRecordOf
  ]

  append-refused :
      (x : Error)
      → (append digest db event).1 ≡ raise x
      → (x ≡ duplicate_event event.id event.run_id)
        × IsUnchanged (sqlite_store digest) db (append digest db event).0
  append-refused x h = elim append-cases [
    | inl (k, _) ↦ (
      raise-injective (sym (rw k at h)),
      rw k (record { timeline = λ run_id. refl; everything = refl }),
    )
    | inr (k, _) ↦ absurd (ground (arith, k))
  ]

-- The SQLite store keeps the same protocol in every valid state.
pub sqlite_store-IsEventStore : (digest : Digest) → IsEventStore (sqlite_store digest) IsValid
sqlite_store-IsEventStore digest = record {
  keeps = λ db event valid. append-IsValid digest db event valid;
  unique = λ db event valid. append_unique digest db event valid;
  stored = λ db event e valid h. append-stored digest db event valid e h;
  refused = λ db event x valid h. append-refused digest db event valid x h;
}

append_all-IsValid :
    (digest : Digest) (db : Database) (events : List EventPayload)
    → IsValid db
    → IsValid (append_all digest db events)
unfolding append_all
append_all-IsValid digest db [] valid = valid
append_all-IsValid digest db (event ∷ events) valid =
    append_all-IsValid digest (append digest db event).0 events
      (append-IsValid digest db event valid)

-- No row has a number that was not given out, after any calls of `append` on a new file.
pub database_of-IsValid :
    (digest : Digest) (events : List EventPayload) → IsValid (database_of digest events)
database_of-IsValid digest events =
    append_all-IsValid digest created events (record { numbers = tt })
