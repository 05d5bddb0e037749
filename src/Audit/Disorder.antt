-- ===== src/Audit/Disorder.antt =====
-- audit_export_service.py against the in-memory store: an event that comes too late.
use night_ledger.Prelude.{
  true, ◌≡◌, refl, sym, ◌∙◌, none, some, List, [], ◌∷◌, any, any-map, get_last?, arith, ltb,
  eq_refl, Option-cases, inl, inr, is_some,
}
use night_ledger.Prelude.Sort.{sort_by, insert_after}
use night_ledger.Prelude.Sort.Laws.{any-sort_by}
use night_ledger.Schema.{EventPayload, StoredEvent}
use night_ledger.Errors.{ok}
use night_ledger.EventStore.{Digest}
use night_ledger.EventStore.Contract.{place}
use night_ledger.EventStore.Memory.{
  StoredRecord, Memory, records, new_record, append, store_of, to_stored_event, key_leb,
  list_by_run_id,
}
use night_ledger.EventStore.Memory.Invariant.{last_hash, store_of-IsValid}
use night_ledger.EventStore.Memory.Contract.{timeline-commit, append-cases}
use night_ledger.Audit.{chain_broken, verify_hash_chain}
use night_ledger.Audit.Chain.{link, link-cons, link-none}

module _ (digest : Digest) (events : List EventPayload) (event : EventPayload) where
  abbrev before : Memory
  before = store_of digest events

  -- The next event of a run that has some is linked to one of them.
  next_has_link :
      (l : StoredEvent) (ls : List StoredEvent)
      → list_by_run_id before event.run_id ≡ l ∷ ls
      → is_some (new_record digest before event).prev_hash ≡ true
  unfolding new_record list_by_run_id
  next_has_link l ls h =
      let rs = records before event.run_id in
      let found : any (λ _. true) rs ≡ true =
        sym (any-sort_by key_leb (λ _. true) rs)
        ∙ sym (any-map (λ _. true) to_stored_event (sort_by key_leb rs))
        ∙ rw h (any-true l ls) in
      rw ((store_of-IsValid digest events).last event.run_id) (last-is_some rs found)
    where
      any-true : (l : StoredEvent) (ls : List StoredEvent) → any (λ _. true) (l ∷ ls) ≡ true
      any-true l ls = unfold any in refl

      last-is_some :
          (rs : List StoredRecord)
          → any (λ _. true) rs ≡ true
          → is_some (last_hash (get_last? rs)) ≡ true
      last-is_some [] h = unfold any in cc
      last-is_some (r ∷ rs) h = rw (← link-none (get_last? (r ∷ rs)), link-cons none r rs) (go rs)
        where
          go : (rs : List StoredRecord) → is_some (link (some r.hash) (get_last? rs)) ≡ true
          go rs = elim (Option-cases (get_last? rs)) [ inl e ↦ rw e | inr (x, e) ↦ rw e ]

  -- An event that the in-memory store accepts for a run that has events, and whose timestamp is
  -- before the first of them in time, makes the check of the hash chain fail for the run.
  pub verify_hash_chain-out_of_order :
      (e l : StoredEvent) (ls : List StoredEvent)
      → (append digest before event).1 ≡ ok e
      → list_by_run_id before event.run_id ≡ l ∷ ls
      → ltb event.timestamp l.timestamp ≡ true
      → verify_hash_chain digest (list_by_run_id (append digest before event).0 event.run_id)
        ≡ chain_broken
  verify_hash_chain-out_of_order e l ls h k earlier =
      let stored = to_stored_event (new_record digest before event) in
      elim (append-cases digest before event (store_of-IsValid digest events)) [
        | inl c ↦ absurd (ground (arith, c))
        | inr c ↦
            rw
              (
                c,
                timeline-commit digest before event (store_of-IsValid digest events) event.run_id,
                eq_refl event.run_id,
                k,
              )
              (broken (next_has_link l ls k))
      ]
    where
      broken :
          is_some (new_record digest before event).prev_hash ≡ true
          → verify_hash_chain digest
              (place (to_stored_event (new_record digest before event)) (l ∷ ls))
            ≡ chain_broken
      broken linked =
          unfold verify_hash_chain insert_after new_record to_stored_event in ground arith
