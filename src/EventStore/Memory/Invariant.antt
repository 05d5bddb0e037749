-- ===== src/EventStore/Memory/Invariant.antt =====
-- `InMemoryAppendOnlyEventStore`: how its five attributes belong together.
use night_ledger.Prelude.{
  ℕ, ◌+◌, ◌≤◌, String, ◌≡◌, refl, Option, none, some, List, [], ◌∷◌, ◌++◌, arith, ltb, str_eq,
  eq_iff, ◌||◌, Bool-cases, inl, inr, if◌then◌else◌, any, any-append, All, All-append, All-split,
  get_last?, get_last?-snoc,
}
use night_ledger.Prelude.Dict.{Dict, lookup, insert, values, lookup-insert}
use night_ledger.Prelude.Time.{Datetime}
use night_ledger.Schema.{EventPayload}
use night_ledger.EventStore.{Digest}
use night_ledger.EventStore.Memory.{
  StoredRecord, Memory, empty, default_list, contains, is_older, records, new_record,
  later_timestamp, append, commit, touch, flatten, append_all, store_of,
}

-- The record has a number that was given out, and the fields of its payload.
pub record IsNumbered (n : ℕ) (r : StoredRecord) : Type 0 where
  pub number : r.sequence ≤ n
  pub id : r.payload.id ≡ r.id
  pub run_id : r.payload.run_id ≡ r.run_id

abbrev pub last_hash : Option StoredRecord → Option String
last_hash none = none
last_hash (some r) = some r.hash

pub record IsValid (m : Memory) : Type 0 where
  pub ids :
      (run_id event_id : String)
      → contains event_id (default_list (lookup run_id m.event_id_index))
        ≡ any (λ r. str_eq r.id event_id) (records m run_id)
  pub older :
      (run_id : String) (t : Datetime)
      → is_older t (lookup run_id m.last_timestamp_by_run)
        ≡ any (λ r. ltb t r.timestamp) (records m run_id)
  pub last :
      (run_id : String)
      → lookup run_id m.last_hash_by_run ≡ last_hash (get_last? (records m run_id))
  pub runs : (run_id : String) → All (λ r. r.run_id ≡ run_id) (records m run_id)
  pub numbers : (run_id : String) → All (IsNumbered m.sequence) (records m run_id)
  pub all_numbers : All (IsNumbered m.sequence) (flatten (values m.run_records_index))

pub empty-IsValid : IsValid empty
unfolding records lookup contains any get_last? flatten values
empty-IsValid = record {
  ids = λ r e. refl;
  older = λ r t. refl;
  last = λ r. refl;
  runs = λ r. tt;
  numbers = λ r. tt;
  all_numbers = tt;
}

contains-snoc :
    (x y : String) (xs : List String) → contains x (xs ++ y ∷ []) ≡ (contains x xs || str_eq y x)
unfolding contains
contains-snoc x y [] = ground arith
contains-snoc x y (z ∷ xs) = ground (arith, contains-snoc x y xs)

All-numbers_mono :
    (n : ℕ) (rs : List StoredRecord) → All (IsNumbered n) rs → All (IsNumbered (n + 1)) rs
All-numbers_mono n [] h = tt
All-numbers_mono n (r ∷ rs) h = (
  record { number = omega (arith, h.0.number); id = h.0.id; run_id = h.0.run_id },
  All-numbers_mono n rs h.1,
)

-- A dict to one of whose lists a record is added.
All-flatten-insert :
    (P : StoredRecord → Type 0) (k : String) (r : StoredRecord) (old : List StoredRecord)
    (d : Dict (List StoredRecord))
    → old ≡ default_list (lookup k d)
    → P r
    → All P (flatten (values d))
    → All P (flatten (values (insert k (old ++ r ∷ []) d)))
unfolding flatten values insert lookup
All-flatten-insert P k r old [] o p h = rw o (p, tt)
All-flatten-insert P k r old ((j, v) ∷ d) o p h =
    let (hv, hd) = All-split P v (flatten (values d)) h in
    elim (Bool-cases (str_eq j k)) [
      | inl e ↦
          let o' : old ≡ v = rw e at o in
          rw (e, o') (All-append P (v ++ r ∷ []) _ (All-append P v (r ∷ []) hv (p, tt)) hd)
      | inr e ↦ rw e (All-append P v _ hv (All-flatten-insert P k r old d (rw e at o) p hd))
    ]

module _ (digest : Digest) (m : Memory) (event : EventPayload) (valid : IsValid m) where
  abbrev pub new : StoredRecord
  new = new_record digest m event

  pub records-commit :
      (run_id : String)
      → records (commit digest m event) run_id ≡ (
          if str_eq event.run_id run_id
          then records m event.run_id ++ new ∷ []
          else records m run_id)
  unfolding records commit
  records-commit run_id = ground (
    arith,
    lookup-insert event.run_id run_id (records m event.run_id ++ new ∷ []) m.run_records_index,
  )

  commit-ids :
      (run_id event_id : String)
      → contains event_id (default_list (lookup run_id (commit digest m event).event_id_index))
        ≡ any (λ r. str_eq r.id event_id) (records (commit digest m event) run_id)
  unfolding commit any new_record
  commit-ids run_id event_id =
      let ids = default_list (lookup event.run_id m.event_id_index) in
      ground (
        arith,
        eq_iff event.run_id run_id,
        lookup-insert event.run_id run_id (ids ++ event.id ∷ []) m.event_id_index,
        contains-snoc event_id event.id ids,
        records-commit run_id,
        any-append (λ (r : StoredRecord). str_eq r.id event_id) (records m event.run_id) (new ∷ []),
        valid.ids run_id event_id,
      )

  commit-older :
      (run_id : String) (t : Datetime)
      → is_older t (lookup run_id (commit digest m event).last_timestamp_by_run)
        ≡ any (λ r. ltb t r.timestamp) (records (commit digest m event) run_id)
  unfolding commit any later_timestamp new_record
  commit-older run_id t = ground (
    arith,
    eq_iff event.run_id run_id,
    lookup-insert event.run_id run_id event.timestamp m.last_timestamp_by_run,
    records-commit run_id,
    any-append (λ (r : StoredRecord). ltb t r.timestamp) (records m event.run_id) (new ∷ []),
    valid.older run_id t,
  )

  commit-last :
      (run_id : String)
      → lookup run_id (commit digest m event).last_hash_by_run
        ≡ last_hash (get_last? (records (commit digest m event) run_id))
  unfolding commit
  commit-last run_id = ground (
    arith,
    lookup-insert event.run_id run_id new.hash m.last_hash_by_run,
    records-commit run_id,
    get_last?-snoc (records m event.run_id) new,
    valid.last run_id,
  )

  commit-runs :
      (run_id : String) → All (λ r. r.run_id ≡ run_id) (records (commit digest m event) run_id)
  commit-runs run_id = rw (records-commit run_id) (elim (Bool-cases (str_eq event.run_id run_id)) [
    | inl e ↦
        let same : event.run_id ≡ run_id = (eq_iff event.run_id run_id).0 e in
        rw e (
          All-append (λ r. r.run_id ≡ run_id) (records m event.run_id) (new ∷ [])
            (rw same (valid.runs run_id)) (unfold new_record in same, tt))
    | inr e ↦ rw e (valid.runs run_id)
  ])

  new-IsNumbered : IsNumbered (m.sequence + 1) new
  unfolding new_record
  new-IsNumbered = record { number = omega arith; id = refl; run_id = refl }

  commit-numbers :
      (run_id : String) → All (IsNumbered (m.sequence + 1)) (records (commit digest m event) run_id)
  commit-numbers run_id =
      rw (records-commit run_id) (elim (Bool-cases (str_eq event.run_id run_id)) [
        | inl e ↦ rw e (
            All-append (IsNumbered (m.sequence + 1)) (records m event.run_id) (new ∷ [])
              (All-numbers_mono m.sequence _ (valid.numbers event.run_id)) (new-IsNumbered, tt))
        | inr e ↦ rw e (All-numbers_mono m.sequence _ (valid.numbers run_id))
      ])

  pub commit-IsValid : IsValid (commit digest m event)
  unfolding commit
  commit-IsValid = record {
    ids = commit-ids;
    older = commit-older;
    last = commit-last;
    runs = commit-runs;
    numbers = commit-numbers;
    all_numbers =
        unfold records in
        All-flatten-insert (IsNumbered (m.sequence + 1)) event.run_id new (records m event.run_id)
          m.run_records_index (unfold records in refl) new-IsNumbered
          (All-numbers_mono m.sequence _ valid.all_numbers);
  }

  touch-IsValid : IsValid (touch m event.run_id)
  unfolding touch records
  touch-IsValid = record {
    ids = λ run_id event_id. ground (
      arith,
      eq_iff event.run_id run_id,
      lookup-insert event.run_id run_id (default_list (lookup event.run_id m.event_id_index))
          m.event_id_index,
      valid.ids run_id event_id,
    );
    older = valid.older;
    last = valid.last;
    runs = valid.runs;
    numbers = valid.numbers;
    all_numbers = valid.all_numbers;
  }

  -- `append` keeps the attributes consistent, whether it stores the event or raises.
  pub append-IsValid : IsValid (append digest m event).0
  unfolding append
  append-IsValid =
      elim (Bool-cases (contains event.id (default_list (lookup event.run_id m.event_id_index)))) [
        | inl e ↦ rw e touch-IsValid
        | inr e ↦ rw e commit-IsValid
      ]

pub append_all-IsValid :
    (digest : Digest) (m : Memory) (events : List EventPayload)
    → IsValid m
    → IsValid (append_all digest m events)
unfolding append_all
append_all-IsValid digest m [] valid = valid
append_all-IsValid digest m (e ∷ es) valid =
    append_all-IsValid digest (append digest m e).0 es (append-IsValid digest m e valid)

-- The attributes of a new store stay consistent under any calls of `append`.
pub store_of-IsValid :
    (digest : Digest) (events : List EventPayload) → IsValid (store_of digest events)
store_of-IsValid digest events = append_all-IsValid digest empty events empty-IsValid
