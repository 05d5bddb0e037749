-- ===== src/Audit/Export.antt =====
-- audit_export_service.py: what an export that returns holds.
use night_ledger.Prelude.{
  String, true, ◌||◌, ◌≡◌, refl, sym, ap, subst, ◌∙◌, List, [], ◌∷◌, map, filter, length,
  length-map, any, All, arith, str_eq, eq_iff, eq_refl, distinct, text_leb, Bool-cases, inl, inr,
}
use night_ledger.Prelude.Sort.Laws.{any-sort_by}
use night_ledger.Schema.{StoredEvent}
use night_ledger.Errors.{ok, >>=-eq-ok, ok-injective}
use night_ledger.EventStore.{Digest, EventStore}
use night_ledger.Audit.{
  AuditExport, of_decision, audit_event, sorted_run_ids, verify_hash_chain, export_run, export_runs,
  export_decision_audit,
}

any-distinct :
    (z : String) (xs : List String) → any (λ y. str_eq y z) (distinct xs) ≡ any (λ y. str_eq y z) xs
unfolding any distinct
any-distinct z [] = refl
any-distinct z (x ∷ xs) = elim (Bool-cases (any (λ y. str_eq y x) xs)) [
  | inr e ↦ rw (e) (ap (λ b. str_eq x z || b) (any-distinct z xs))
  | inl e ↦ rw (e) (
      any-distinct z xs ∙ elim (Bool-cases (str_eq x z)) [
        | inr f ↦ rw (f) refl
        | inl f ↦ rw (← (eq_iff x z).0 f, e, eq_refl x) refl
      ])
]

-- Every run of an event is among the sorted ones.
run_id-sorted :
    (e : StoredEvent) (events : List StoredEvent)
    → any (λ y. str_eq y e.run_id) (map (λ (x : StoredEvent). x.run_id) events) ≡ true
    → any (λ y. str_eq y e.run_id) (sorted_run_ids events) ≡ true
unfolding sorted_run_ids
run_id-sorted e events h =
    any-sort_by text_leb (λ y. str_eq y e.run_id)
      (distinct (map (λ (x : StoredEvent). x.run_id) events))
    ∙ any-distinct e.run_id (map (λ (x : StoredEvent). x.run_id) events)
    ∙ h

one_run-All :
    (run_id : String) (events : List StoredEvent)
    → ((e : StoredEvent)
        → any (λ y. str_eq y e.run_id) (map (λ (x : StoredEvent). x.run_id) events) ≡ true
        → e.run_id ≡ run_id)
    → All (λ (e : StoredEvent). e.run_id ≡ run_id) events
unfolding any
one_run-All run_id [] h = tt
one_run-All run_id (e ∷ es) h =
    (h e (rw (eq_refl e.run_id) refl), one_run-All run_id es (λ x k. h x (ground arith)))

module _ {S : Type 0} (store : EventStore S) (digest : Digest) (s : S) (decision_id : String) where
  -- The export of a decision.
  pub record IsExport (x : AuditExport) : Type 0 where
    pub of : x.decision_id ≡ decision_id
    pub one_run :
        All
          (λ (e : StoredEvent). e.run_id ≡ x.run_id)
          (filter (of_decision decision_id) (store.list_all s))
    pub verified : verify_hash_chain digest (store.list_by_run_id s x.run_id) ≡ ok tt
    pub events :
        x.events
        ≡ map
            (audit_event decision_id)
            (filter (of_decision decision_id) (store.list_by_run_id s x.run_id))
    pub count : x.event_count ≡ length x.events

  -- An export that returned is of the decision; all stored events of the decision are of its one
  -- run, the hash chain of that run passes the check, and the export lists the events of the
  -- decision in the run, in order, and their number.
  pub export_decision_audit-IsExport :
      (x : AuditExport) → export_decision_audit store digest s decision_id ≡ ok x → IsExport x
  unfolding export_decision_audit export_run
  export_decision_audit-IsExport x h = go (sorted_run_ids matching) refl h
    where
      matching : List StoredEvent
      matching = filter (of_decision decision_id) (store.list_all s)

      same_run :
          (run_id : String) (e : StoredEvent)
          → sorted_run_ids (filter (of_decision decision_id) (store.list_all s)) ≡ run_id ∷ []
          → any
              (λ y. str_eq y e.run_id)
              (map
                (λ (y : StoredEvent). y.run_id)
                (filter (of_decision decision_id) (store.list_all s)))
            ≡ true
          → e.run_id ≡ run_id
      same_run run_id e one k =
          let found : any (λ y. str_eq y e.run_id) (run_id ∷ []) ≡ true =
            ap (any (λ y. str_eq y e.run_id)) (sym one)
            ∙ run_id-sorted e (filter (of_decision decision_id) (store.list_all s)) k in
          sym ((eq_iff run_id e.run_id).0 (only found))
        where
          only : any (λ y. str_eq y e.run_id) (run_id ∷ []) ≡ true → str_eq run_id e.run_id ≡ true
          only h = unfold any in ground arith

      go :
          (run_ids : List String)
          → sorted_run_ids (filter (of_decision decision_id) (store.list_all s)) ≡ run_ids
          → export_runs store digest s decision_id run_ids ≡ ok x
          → IsExport x
      go [] one h = cc
      go (_ ∷ _ ∷ _) one h = cc
      go (run_id ∷ []) one h =
          let (u, verified, done) =
            >>=-eq-ok (verify_hash_chain digest (store.list_by_run_id s run_id)) (λ _. _) h in
          subst IsExport (ok-injective done) record {
            of = refl;
            one_run =
                one_run-All run_id (filter (of_decision decision_id) (store.list_all s))
                  (λ e k. same_run run_id e one k);
            verified = verified;
            events = refl;
            count = sym (length-map _ _);
          }
