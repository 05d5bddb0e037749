-- ===== src/Audit/Chain.antt =====
-- audit_export_service.py against the in-memory store: which runs pass the check of the chain.
use text.Mathlib.TextLemmas.{append-eq-nil_iff}
use night_ledger.Prelude.{
  ℕ, ◌+◌, String, Bool, true, false, ◌||◌, ◌≡◌, refl, ap, sym, ◌∙◌, Option, none, some, List, [],
  ◌∷◌, ◌++◌, map, All, any, any-append, any-map, get_last?, arith, ltb, str_eq, opt_eq, eq_iff,
  eq_refl, Bool-cases, inl, inr,
}
use night_ledger.Prelude.Dict.{lookup}
use night_ledger.Prelude.Sort.{sort_by, insert_after}
use night_ledger.Prelude.Sort.Laws.{sort_by-snoc, any-sort_by}
use night_ledger.Schema.{EventPayload, StoredEvent}
use night_ledger.Errors.{ok}
use night_ledger.EventStore.{Digest, HashFields, build_event_hash}
use night_ledger.EventStore.Memory.{
  StoredRecord, Memory, empty, records, new_record, append, commit, touch, append_all, store_of,
  to_stored_event, key_leb, list_by_run_id,
}
use night_ledger.EventStore.Memory.Invariant.{
  IsNumbered, IsValid, records-commit, last_hash, append-IsValid, empty-IsValid,
}
use night_ledger.EventStore.Memory.Contract.{key_leb-IsTotal, append-cases}
use night_ledger.Audit.{sealed, verify_from, verify_hash_chain}

abbrev warned : StoredRecord → Bool
warned r = r.integrity_warning

-- In append order the records of each run are a chain, and they are in time order unless one of
-- them has the integrity warning.
pub record IsChained (digest : Digest) (m : Memory) : Type 0 where
  pub chain :
      (run_id : String) → verify_hash_chain digest (map to_stored_event (records m run_id)) ≡ ok tt
  pub in_order :
      (run_id : String)
      → any warned (records m run_id) ≡ false
      → sort_by key_leb (records m run_id) ≡ records m run_id

empty-IsChained : (digest : Digest) → IsChained digest empty
unfolding records lookup verify_hash_chain sort_by
empty-IsChained digest = record { chain = λ r. refl; in_order = λ r h. refl }

build-nonempty : (digest : Digest) (f : HashFields) → str_eq (build_event_hash digest f) "" ≡ false
unfolding build_event_hash
build-nonempty digest f = elim (Bool-cases (str_eq (build_event_hash digest f) "")) [
  | inr e ↦ e
  | inl e ↦
      let empty_text = (append-eq-nil_iff.0 ((eq_iff _ "").0 e)).0 in
      let impossible : str_eq "sha256:" "" ≡ true = (eq_iff "sha256:" "").1 empty_text in cc
]

opt_eq_refl : (o : Option String) → opt_eq o o ≡ true
opt_eq_refl none = refl
opt_eq_refl (some s) = eq_refl s

-- The hash to which the event behind these records is linked.
abbrev pub link : Option String → Option StoredRecord → Option String
link prev none = prev
link prev (some l) = some l.hash

pub link-cons :
    (prev : Option String) (x : StoredRecord) (rs : List StoredRecord)
    → link prev (get_last? (x ∷ rs)) ≡ link (some x.hash) (get_last? rs)
unfolding get_last?
link-cons prev x [] = refl
link-cons prev x (y ∷ []) = refl
link-cons prev x (y ∷ z ∷ rs) = link-cons prev y (z ∷ rs) ∙ sym (link-cons (some x.hash) y (z ∷ rs))

-- One more event behind a chain.
verify_from-snoc :
    (digest : Digest) (prev : Option String) (rs : List StoredRecord) (r : StoredRecord)
    → verify_from digest prev (map to_stored_event rs) ≡ ok tt
    → r.prev_hash ≡ link prev (get_last? rs)
    → r.hash ≡ build_event_hash digest (sealed r.prev_hash (to_stored_event r))
    → verify_from digest prev (map to_stored_event (rs ++ r ∷ [])) ≡ ok tt
unfolding verify_from to_stored_event get_last?
verify_from-snoc digest prev [] r h p e = ground (
  arith,
  opt_eq_refl prev,
  eq_refl r.hash,
  build-nonempty digest (sealed r.prev_hash (to_stored_event r)),
)
verify_from-snoc digest prev (x ∷ rs) r h p e =
    ground (arith, verify_from-snoc digest (some x.hash) rs r, link-cons prev x rs)

pub link-none : (o : Option StoredRecord) → link none o ≡ last_hash o
link-none none = refl
link-none (some r) = refl

-- A record with the greatest number and no later record before it stays last.
insert_after-end :
    (n : ℕ) (r : StoredRecord) (rs : List StoredRecord)
    → r.sequence ≡ n + 1
    → All (IsNumbered n) rs
    → any (λ (s : StoredRecord). ltb r.timestamp s.timestamp) rs ≡ false
    → insert_after key_leb r rs ≡ rs ++ r ∷ []
unfolding insert_after any key_leb
insert_after-end n r [] e h k = refl
insert_after-end n r (s ∷ rs) e h k = ground (arith, h.0.number, insert_after-end n r rs e h.1)

module _ (digest : Digest) (m : Memory) (event : EventPayload) (valid : IsValid m)
    (chained : IsChained digest m) where
  abbrev new : StoredRecord
  new = new_record digest m event

  new-link : new.prev_hash ≡ link none (get_last? (records m event.run_id))
  unfolding new_record
  new-link = valid.last event.run_id ∙ sym (link-none (get_last? (records m event.run_id)))

  new-hash : new.hash ≡ build_event_hash digest (sealed new.prev_hash (to_stored_event new))
  unfolding new_record sealed to_stored_event
  new-hash = refl

  chain-snoc :
      verify_hash_chain digest (map to_stored_event (records m event.run_id ++ new ∷ [])) ≡ ok tt
  unfolding verify_hash_chain
  chain-snoc =
      verify_from-snoc digest none (records m event.run_id) new (chained.chain event.run_id)
        new-link new-hash

  new-warned :
      warned new
      ≡ any (λ (s : StoredRecord). ltb event.timestamp s.timestamp) (records m event.run_id)
  unfolding new_record
  new-warned = valid.older event.run_id event.timestamp

  new-timestamp : new.timestamp ≡ event.timestamp
  unfolding new_record
  new-timestamp = refl

  new-number : new.sequence ≡ m.sequence + 1
  unfolding new_record
  new-number = refl

  order-snoc :
      any warned (records m event.run_id ++ new ∷ []) ≡ false
      → sort_by key_leb (records m event.run_id ++ new ∷ []) ≡ records m event.run_id ++ new ∷ []
  unfolding any
  order-snoc h =
      let rs = records m event.run_id in
      let parts : (any warned rs || (warned new || false)) ≡ false =
        sym (any-append warned rs (new ∷ [])) ∙ h in
      let before : any warned rs ≡ false = ground arith in
      let fresh : warned new ≡ false = ground arith in
      sort_by-snoc key_leb key_leb-IsTotal rs new
      ∙ ap (insert_after key_leb new) (chained.in_order event.run_id before)
      ∙ insert_after-end m.sequence new rs new-number (valid.numbers event.run_id)
          (rw new-timestamp (sym new-warned ∙ fresh))

  commit-IsChained : IsChained digest (commit digest m event)
  commit-IsChained = record {
    chain = λ run_id.
        rw (records-commit digest m event valid run_id)
          (elim (Bool-cases (str_eq event.run_id run_id)) [
            | inl e ↦ rw e chain-snoc
            | inr e ↦ rw e (chained.chain run_id)
          ]);
    in_order = λ run_id.
        rw (records-commit digest m event valid run_id)
          (elim (Bool-cases (str_eq event.run_id run_id)) [
            | inl e ↦ rw e order-snoc
            | inr e ↦ rw e (chained.in_order run_id)
          ]);
  }

  -- Every `append` leaves each run a chain of hashes in append order.
  pub append-IsChained : IsChained digest (append digest m event).0
  append-IsChained = elim (append-cases digest m event valid) [
    | inl e ↦
        rw e (unfold touch records in record { chain = chained.chain; in_order = chained.in_order })
    | inr e ↦ rw e commit-IsChained
  ]

append_all-IsChained :
    (digest : Digest) (m : Memory) (events : List EventPayload)
    → IsValid m
    → IsChained digest m
    → IsChained digest (append_all digest m events)
unfolding append_all
append_all-IsChained digest m [] valid c = c
append_all-IsChained digest m (e ∷ es) valid c =
    append_all-IsChained digest (append digest m e).0 es (append-IsValid digest m e valid)
      (append-IsChained digest m e valid c)

store_of-IsChained :
    (digest : Digest) (events : List EventPayload) → IsChained digest (store_of digest events)
store_of-IsChained digest events =
    append_all-IsChained digest empty events empty-IsValid (empty-IsChained digest)

any-list_by_run_id :
    (m : Memory) (run_id : String)
    → any (λ (e : StoredEvent). e.integrity_warning) (list_by_run_id m run_id)
      ≡ any warned (records m run_id)
unfolding list_by_run_id to_stored_event
any-list_by_run_id m run_id =
    any-map (λ (e : StoredEvent). e.integrity_warning) to_stored_event
      (sort_by key_leb (records m run_id))
    ∙ any-sort_by key_leb warned (records m run_id)

-- Whatever was appended to a new in-memory store: a run none of whose events has the integrity
-- warning passes the check of the hash chain that the audit export makes.
pub verify_hash_chain-in_order :
    (digest : Digest) (events : List EventPayload) (run_id : String)
    → any
        (λ (e : StoredEvent). e.integrity_warning)
        (list_by_run_id (store_of digest events) run_id)
      ≡ false
    → verify_hash_chain digest (list_by_run_id (store_of digest events) run_id) ≡ ok tt
verify_hash_chain-in_order digest events run_id h =
    let m = store_of digest events in
    let c = store_of-IsChained digest events in
    unfold list_by_run_id in
    rw (c.in_order run_id (sym (any-list_by_run_id m run_id) ∙ h)) (c.chain run_id)
