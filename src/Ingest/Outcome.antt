-- ===== src/Ingest/Outcome.antt =====
-- event_ingest_service.py and the ingestion handler: what a call leaves in the store.
use night_ledger.Prelude.{◌≡◌, refl, sym, subst, List}
use night_ledger.Schema.{EventPayload, StoredEvent}
use night_ledger.Errors.{Result, ok, raise, Error, ok-injective, schema_validation}
use night_ledger.EventStore.{EventStore}
use night_ledger.EventStore.Contract.{IsEventStore, IsRecordOf, IsAppended, IsUnchanged}
use night_ledger.BusinessRules.{validate_event_business_rules}
use night_ledger.Ingest.{
  PydanticError, Validated, valid, invalid, IngestReply, ingest_reply, ingest_error, ingest_event,
  map_validation_details, validate_event_payload, admit,
}

module _ {S Raw : Type 0} (store : EventStore S) (model_validate : Raw → Validated) (payload : Raw)
    (s : S) where
  abbrev after : S × Result IngestReply
  after = ingest_event store model_validate payload s

  abbrev rules : EventPayload → Result (Unit {0})
  rules event = validate_event_business_rules event (store.list_by_run_id s event.run_id)

  after-invalid :
      (errors : List PydanticError)
      → model_validate payload ≡ invalid errors
      → after ≡ (s, raise (schema_validation (map_validation_details errors)))
  unfolding ingest_event validate_event_payload
  after-invalid errors h = rw h refl

  after-violation :
      (event : EventPayload) (x : Error)
      → model_validate payload ≡ valid event
      → rules event ≡ raise x
      → after ≡ (s, raise (ingest_error x))
  unfolding ingest_event validate_event_payload admit
  after-violation event x h k = rw (h, k) refl

  after-refused :
      (event : EventPayload) (x : Error)
      → model_validate payload ≡ valid event
      → rules event ≡ ok tt
      → (store.append s event).1 ≡ raise x
      → after ≡ ((store.append s event).0, raise (ingest_error x))
  unfolding ingest_event validate_event_payload admit
  after-refused event x h k l = rw (h, k, l) refl

  after-stored :
      (event : EventPayload) (e : StoredEvent)
      → model_validate payload ≡ valid event
      → rules event ≡ ok tt
      → (store.append s event).1 ≡ ok e
      → after ≡ ((store.append s event).0, ok (ingest_reply e))
  unfolding ingest_event validate_event_payload admit
  after-stored event e h k l = rw (h, k, l) refl

  -- What an ingestion that was answered did.
  pub record IsIngested (after : S) (reply : IngestReply) : Type 0 where
    pub event : EventPayload
    pub accepted : model_validate payload ≡ valid event
    pub admitted : rules event ≡ ok tt
    pub stored : StoredEvent
    pub recorded : IsRecordOf event stored
    pub appended : IsAppended store s after stored
    pub answered : reply ≡ ingest_reply stored

  module _ (Valid : S → Type 0) (laws : IsEventStore store Valid) (valid_s : Valid s) where
    abbrev Tells : S × Result IngestReply → Type 0
    Tells r =
        ((reply : IngestReply) → r.1 ≡ ok reply → IsIngested r.0 reply)
        × ((x : Error) → r.1 ≡ raise x → IsUnchanged store s r.0)

    raised : (x : Error) → Tells (s, raise x)
    raised x = (λ reply h. cc, λ y h. record { timeline = λ r. refl; everything = refl })

    -- In a store that keeps its contract, an ingestion that is answered was of a payload that
    -- passed validation as an event which the rules admit to its run; the store has that event
    -- appended, and nothing else is changed, and the answer tells of it. One that raises leaves
    -- all that the store lists as it was.
    pub ingest_event-stores :
        ((reply : IngestReply) → after.1 ≡ ok reply → IsIngested after.0 reply)
        × ((x : Error) → after.1 ≡ raise x → IsUnchanged store s after.0)
    ingest_event-stores = checked (model_validate payload) refl
      where
        written :
            (event : EventPayload)
            → model_validate payload ≡ valid event
            → rules event ≡ ok tt
            → (r : Result StoredEvent) → (store.append s event).1 ≡ r
            → Tells after
        written event h k (raise x) l =
            subst Tells (sym (after-refused event x h k l))
              (λ reply m. cc, λ y m. (laws.refused s event x valid_s l).1)
        written event h k (ok e) l = subst Tells (sym (after-stored event e h k l)) (
          λ reply m. record {
            event = event;
            accepted = h;
            admitted = k;
            stored = e;
            recorded = (laws.stored s event e valid_s l).0;
            appended = (laws.stored s event e valid_s l).1;
            answered = sym (ok-injective m);
          },
          λ y m. cc,
        )

        ruled :
            (event : EventPayload)
            → model_validate payload ≡ valid event
            → (r : Result (Unit {0})) → rules event ≡ r
            → Tells after
        ruled event h (raise x) k = subst Tells (sym (after-violation event x h k)) (raised _)
        ruled event h (ok u) k = written event h k _ refl

        checked : (v : Validated) → model_validate payload ≡ v → Tells after
        checked (invalid errors) h = subst Tells (sym (after-invalid errors h)) (raised _)
        checked (valid event) h = ruled event h _ refl
