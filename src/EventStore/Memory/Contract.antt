-- ===== src/EventStore/Memory/Contract.antt =====
-- `InMemoryAppendOnlyEventStore` is an append-only store as the protocol promises.
use mathlib.Core.List.{append_assoc}
use night_ledger.Prelude.{
  ℕ, ◌+◌, String, not, ◌≡◌, refl, ap, sym, ◌∙◌, List, [], ◌∷◌, ◌++◌, map, arith, str_eq, eq_iff,
  if◌then◌else◌, any, any-map, All, All-split, Bool-cases, ◌⊎◌, inl, inr,
}
use night_ledger.Prelude.Dict.{Dict, lookup, insert, values}
use night_ledger.Prelude.Sort.{sort_by, insert_after}
use night_ledger.Prelude.Sort.Laws.{
  IsTotal, Apart, All-sort_by, any-sort_by, sort_by-snoc, sort_by-cons, sort_by-append,
  map-insert_after,
}
use night_ledger.Schema.{EventPayload, StoredEvent}
use night_ledger.Errors.{ok, raise, duplicate_event, Error, is_ok, ok-injective, raise-injective}
use night_ledger.EventStore.{Digest}
use night_ledger.EventStore.Contract.{
  IsEventStore, IsRecordOf, IsAppended, IsUnchanged, chrono_leb, place, has_id,
}
use night_ledger.EventStore.Memory.{
  StoredRecord, Memory, default_list, contains, records, new_record, append, commit, touch, flatten,
  to_stored_event, key_leb, list_by_run_id, list_all, memory_store,
}
use night_ledger.EventStore.Memory.Invariant.{IsNumbered, IsValid, records-commit, append-IsValid}

pub key_leb-IsTotal : IsTotal key_leb
unfolding key_leb
key_leb-IsTotal = record { total = λ x y h. ground arith; trans = λ x y z h k. ground arith }

module _ (n : ℕ) (x : StoredRecord) (number : x.sequence ≡ n + 1) where
  last_key :
      (l : List StoredRecord)
      → All (IsNumbered n) l
      → All (λ y. key_leb y x ≡ chrono_leb (to_stored_event y) (to_stored_event x)) l
  unfolding key_leb to_stored_event
  last_key [] h = tt
  last_key (y ∷ l) h = (ground (arith, h.0.number), last_key l h.1)

  -- A record with the greatest number goes where its timestamp says.
  map-insert_last :
      (l : List StoredRecord)
      → All (IsNumbered n) l
      → map to_stored_event (insert_after key_leb x l)
        ≡ place (to_stored_event x) (map to_stored_event l)
  map-insert_last l h = map-insert_after key_leb chrono_leb to_stored_event x l (last_key l h)

  last-Apart : (l : List StoredRecord) → All (IsNumbered n) l → Apart key_leb key_leb-IsTotal x l
  unfolding key_leb
  last-Apart [] h = tt
  last-Apart (y ∷ l) h = (ground (arith, h.0.number), last-Apart l h.1)

  -- The records of all runs, where `x` is added to one run.
  sort_by-flatten-insert :
      (k : String) (old : List StoredRecord) (d : Dict (List StoredRecord))
      → old ≡ default_list (lookup k d)
      → All (IsNumbered n) (flatten (values d))
      → sort_by key_leb (flatten (values (insert k (old ++ x ∷ []) d)))
        ≡ insert_after key_leb x (sort_by key_leb (flatten (values d)))
  unfolding flatten values insert lookup
  sort_by-flatten-insert k old [] o h = rw o (sort_by-snoc key_leb key_leb-IsTotal [] x)
  sort_by-flatten-insert k old ((j, v) ∷ d) o h =
      let (hv, hd) = All-split (IsNumbered n) v (flatten (values d)) h in
      elim (Bool-cases (str_eq j k)) [
        | inl e ↦
            let o' : old ≡ v = rw e at o in
            rw (e, o', append_assoc)
              (sort_by-append key_leb key_leb-IsTotal v (x ∷ flatten (values d))
                (flatten (values d)) x
                (sort_by-cons key_leb key_leb-IsTotal x (flatten (values d))
                  (last-Apart (flatten (values d)) hd)))
        | inr e ↦ rw e (
            sort_by-append key_leb key_leb-IsTotal v _ (flatten (values d)) x
              (sort_by-flatten-insert k old d (rw e at o) hd))
      ]

module _ (digest : Digest) (m : Memory) (event : EventPayload) (valid : IsValid m) where
  abbrev pub new : StoredRecord
  new = new_record digest m event

  new-number : new.sequence ≡ m.sequence + 1
  unfolding new_record
  new-number = refl

  pub timeline-commit :
      (run_id : String)
      → list_by_run_id (commit digest m event) run_id ≡ (
          if str_eq event.run_id run_id
          then place (to_stored_event new) (list_by_run_id m run_id)
          else list_by_run_id m run_id)
  unfolding list_by_run_id
  timeline-commit run_id = elim (Bool-cases (str_eq event.run_id run_id)) [
    | inl e ↦
        let same : event.run_id ≡ run_id = (eq_iff event.run_id run_id).0 e in
        rw (
          records-commit digest m event valid run_id,
          e,
          sort_by-snoc key_leb key_leb-IsTotal (records m event.run_id) new,
          map-insert_last m.sequence new new-number (sort_by key_leb (records m event.run_id)) (
              All-sort_by key_leb (IsNumbered m.sequence) (records m event.run_id)
                (valid.numbers event.run_id)),
          same,
        )
    | inr e ↦ rw (records-commit digest m event valid run_id, e)
  ]

  everything-commit : list_all (commit digest m event) ≡ place (to_stored_event new) (list_all m)
  unfolding list_all commit records
  everything-commit =
      ap (map to_stored_event) (
        sort_by-flatten-insert m.sequence new new-number event.run_id (records m event.run_id)
          m.run_records_index (unfold records in refl) valid.all_numbers)
      ∙ map-insert_last m.sequence new new-number
          (sort_by key_leb (flatten (values m.run_records_index)))
          (All-sort_by key_leb (IsNumbered m.sequence) (flatten (values m.run_records_index))
            valid.all_numbers)

  -- The identifiers that are refused are those that `list_by_run_id` shows.
  is_duplicate :
      contains event.id (default_list (lookup event.run_id m.event_id_index))
      ≡ any (has_id event.id) (list_by_run_id m event.run_id)
  unfolding list_by_run_id to_stored_event
  is_duplicate =
      valid.ids event.run_id event.id
      ∙ sym (
          any-map (has_id event.id) to_stored_event (sort_by key_leb (records m event.run_id))
          ∙ any-sort_by key_leb (λ (r : StoredRecord). str_eq r.id event.id)
              (records m event.run_id))

  append_unique :
      is_ok (append digest m event).1 ≡ not (any (has_id event.id) (list_by_run_id m event.run_id))
  unfolding append
  append_unique = ground (arith, is_duplicate)

  pub append-cases :
      (append digest m event
        ≡ (touch m event.run_id, raise (duplicate_event event.id event.run_id)))
      ⊎ (append digest m event ≡ (commit digest m event, ok (to_stored_event new)))
  unfolding append
  append-cases =
      elim (Bool-cases (contains event.id (default_list (lookup event.run_id m.event_id_index)))) [
        | inl e ↦ inl (rw e)
        | inr e ↦ inr (rw e)
      ]

  new-IsRecordOf : IsRecordOf event (to_stored_event new)
  unfolding new_record to_stored_event
  new-IsRecordOf = record { id = refl; run_id = refl; timestamp = refl; payload = refl }

  commit-IsAppended :
      IsAppended (memory_store digest) m (commit digest m event) (to_stored_event new)
  unfolding to_stored_event new_record
  commit-IsAppended = record { timeline = timeline-commit; everything = everything-commit }

  append-stored :
      (e : StoredEvent)
      → (append digest m event).1 ≡ ok e
      → IsRecordOf event e × IsAppended (memory_store digest) m (append digest m event).0 e
  append-stored e h = elim append-cases [
    | inl k ↦ absurd (ground (arith, k))
    | inr k ↦
        let same : to_stored_event new ≡ e = ok-injective (rw k at h) in
        rw (← same, k) (new-IsRecordOf, commit-IsAppended)
  ]

  touch-IsUnchanged : IsUnchanged (memory_store digest) m (touch m event.run_id)
  unfolding touch list_by_run_id list_all records
  touch-IsUnchanged = record { timeline = λ run_id. refl; everything = refl }

  append-refused :
      (x : Error)
      → (append digest m event).1 ≡ raise x
      → (x ≡ duplicate_event event.id event.run_id)
        × IsUnchanged (memory_store digest) m (append digest m event).0
  append-refused x h = elim append-cases [
    | inl k ↦ (raise-injective (sym (rw k at h)), rw k touch-IsUnchanged)
    | inr k ↦ absurd (ground (arith, k))
  ]

-- The in-memory store keeps the protocol of an append-only store in every valid state: it stores
-- an event exactly if the run has none of that identifier, an accepted event comes back with its
-- own fields and enters the list of its run and the list of all runs at its place in time,
-- behind those of the same timestamp; a refusal is DuplicateEventError and changes no list.
pub memory_store-IsEventStore : (digest : Digest) → IsEventStore (memory_store digest) IsValid
memory_store-IsEventStore digest = record {
  keeps = λ m event valid. append-IsValid digest m event valid;
  unique = λ m event valid. append_unique digest m event valid;
  stored = λ m event e valid h. append-stored digest m event valid e h;
  refused = λ m event x valid h. append-refused digest m event valid x h;
}
