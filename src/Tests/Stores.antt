-- ===== src/Tests/Stores.antt =====
-- The stores, the hash chain and the used tokens at concrete inputs.
use night_ledger.Prelude.{
  ◌≡◌, refl, true, false, Option, none, some, List, [], ◌∷◌, any, arith, String, str_eq, eq_iff,
  ◌≢◌,
}
use night_ledger.Schema.{StoredEvent}
use night_ledger.Errors.{ok}
use night_ledger.EventStore.{Digest}
use night_ledger.EventStore.Contract.{IsEventStore}
use night_ledger.EventStore.Memory
use night_ledger.EventStore.Memory.{store_of, memory_store}
use night_ledger.EventStore.Memory.Invariant.{store_of-IsValid}
use night_ledger.EventStore.Memory.Invariant
use night_ledger.EventStore.Memory.Contract.{memory_store-IsEventStore}
use night_ledger.EventStore.Sqlite
use night_ledger.EventStore.Sqlite.Contract.{sqlite_store-IsEventStore}
use night_ledger.EventStore.Sqlite.Contract
use night_ledger.EventStore.Warnings.{has_later, memory_warning, warning_of, stores_disagree}
use night_ledger.Audit.{
  verify_hash_chain, chain_broken, AuditExport, audit_event, export_decision_audit,
}
use night_ledger.Audit.Export.{IsExport, export_decision_audit-IsExport}
use night_ledger.Audit.Commitment.{seals, verify_hash_chain-commits}
use night_ledger.Audit.Chain.{verify_hash_chain-in_order}
use night_ledger.Audit.Disorder.{verify_hash_chain-out_of_order}
use night_ledger.Replay.{no_tokens, consume_once}
use night_ledger.Replay.Once.{Request, serve, consume_once-once}
use night_ledger.Tests.{triage, asking, granting, id_digest, stored_as}

memory_store-IsEventStore_example : IsEventStore (memory_store id_digest) Invariant.IsValid
memory_store-IsEventStore_example = memory_store-IsEventStore id_digest

sqlite_store-IsEventStore_example : IsEventStore (Sqlite.sqlite_store id_digest) Contract.IsValid
sqlite_store-IsEventStore_example = sqlite_store-IsEventStore id_digest

store_of-IsValid_example : Invariant.IsValid (store_of id_digest (triage ∷ granting ∷ asking ∷ []))
store_of-IsValid_example = store_of-IsValid id_digest (triage ∷ granting ∷ asking ∷ [])

differ : (a b : String) → str_eq a b ≡ false → a ≢ b
differ a b f h = ground (arith, eq_iff a b)

-- The request, stored behind its resolution.
abbrev late : StoredEvent
late = record (stored_as asking) { integrity_warning = true; prev_hash = some "sha256:evt_3" }

late-stored :
    (Memory.append id_digest (store_of id_digest (triage ∷ granting ∷ [])) asking).1 ≡ ok late
unfolding Memory.append Memory.contains night_ledger.Prelude.Dict.lookup Memory.append_all
    Memory.commit night_ledger.Prelude.Dict.insert Memory.to_stored_event Memory.new_record
    Memory.later_timestamp night_ledger.EventStore.build_event_hash
late-stored = refl

memory_warning_example :
    true
    ≡ has_later asking (Memory.list_by_run_id (store_of id_digest (triage ∷ granting ∷ [])) "run_1")
memory_warning_example = memory_warning id_digest (triage ∷ granting ∷ []) asking late late-stored

stores_disagree_example :
    (warning_of (Memory.append id_digest (store_of id_digest (granting ∷ triage ∷ [])) asking).1
      ≡ some true)
    × (warning_of
          (Sqlite.append id_digest (Sqlite.database_of id_digest (granting ∷ triage ∷ [])) asking).1
        ≡ some false)
stores_disagree_example =
    stores_disagree id_digest granting triage asking refl refl (differ _ _ refl) (differ _ _ refl)
      (differ _ _ refl) (omega arith) (omega arith)

unwarned :
    any
      (λ (e : StoredEvent). e.integrity_warning)
      (Memory.list_by_run_id (store_of id_digest (triage ∷ asking ∷ [])) "run_1")
    ≡ false
unfolding Memory.list_by_run_id any night_ledger.Prelude.Sort.sort_by Memory.records
    night_ledger.Prelude.Dict.lookup Memory.append_all Memory.append Memory.contains Memory.commit
    night_ledger.Prelude.Dict.insert Memory.key_leb Memory.new_record Memory.to_stored_event
    Memory.later_timestamp
unwarned = refl

verify_hash_chain-in_order_example :
    verify_hash_chain id_digest
      (Memory.list_by_run_id (store_of id_digest (triage ∷ asking ∷ [])) "run_1")
    ≡ ok tt
verify_hash_chain-in_order_example =
    verify_hash_chain-in_order id_digest (triage ∷ asking ∷ []) "run_1" unwarned

abbrev early : StoredEvent
early = record (stored_as triage) { integrity_warning = true; prev_hash = some "sha256:evt_2" }

early-stored : (Memory.append id_digest (store_of id_digest (asking ∷ [])) triage).1 ≡ ok early
unfolding Memory.append Memory.contains night_ledger.Prelude.Dict.lookup Memory.append_all
    Memory.commit night_ledger.Prelude.Dict.insert Memory.to_stored_event Memory.new_record
    Memory.later_timestamp night_ledger.EventStore.build_event_hash
early-stored = refl

asking-listed :
    Memory.list_by_run_id (store_of id_digest (asking ∷ [])) "run_1" ≡ stored_as asking ∷ []
unfolding Memory.list_by_run_id night_ledger.Prelude.Sort.sort_by Memory.records
    night_ledger.Prelude.Dict.lookup Memory.append_all Memory.append Memory.contains Memory.commit
    night_ledger.Prelude.Dict.insert Memory.to_stored_event Memory.new_record
    night_ledger.EventStore.build_event_hash
asking-listed = refl

verify_hash_chain-out_of_order_example :
    verify_hash_chain id_digest (
      Memory.list_by_run_id
        (Memory.append id_digest (store_of id_digest (asking ∷ [])) triage).0
        "run_1")
    ≡ chain_broken
verify_hash_chain-out_of_order_example =
    verify_hash_chain-out_of_order id_digest (asking ∷ []) triage early (stored_as asking) []
      early-stored asking-listed refl

abbrev chained : List StoredEvent
chained = stored_as triage ∷ record (stored_as asking) { prev_hash = some "sha256:evt_1" } ∷ []

chained-verified : verify_hash_chain id_digest chained ≡ ok tt
unfolding verify_hash_chain night_ledger.EventStore.build_event_hash night_ledger.Audit.sealed
chained-verified = refl

verify_hash_chain-commits_example : seals none chained ≡ seals none chained
unfolding seals night_ledger.Audit.sealed night_ledger.Prelude.Time.isoformat
verify_hash_chain-commits_example =
    verify_hash_chain-commits id_digest chained chained chained-verified chained-verified refl
      ((λ h. refl, (λ h. cc, tt)), ((λ h. cc, (λ h. refl, tt)), tt))

abbrev at_100 : Request
at_100 = record {
  clock = record { unix = 100; iso = "1970-01-01T00:01:40Z" };
  jti = "jti_1";
  exp_unix = 400;
}

abbrev at_200 : Request
at_200 = record {
  clock = record { unix = 200; iso = "1970-01-01T00:03:20Z" };
  jti = "jti_2";
  exp_unix = 500;
}

abbrev at_300 : Request
at_300 = record at_100 { clock = record { unix = 300; iso = "1970-01-01T00:05:00Z" } }

won : (consume_once at_100.clock "jti_1" 400 no_tokens).1 ≡ true
unfolding consume_once any night_ledger.Prelude.filter
won = refl

consume_once-once_example :
    (consume_once at_300.clock "jti_1" 400
      (serve (consume_once at_100.clock "jti_1" 400 no_tokens).0 (at_200 ∷ []))).1
    ≡ false
consume_once-once_example =
    consume_once-once no_tokens at_100 (at_200 ∷ []) at_300 won refl (refl, tt) refl

abbrev linked_request : StoredEvent
linked_request = record (stored_as asking) { prev_hash = some "sha256:evt_1" }

abbrev dec_1_export : AuditExport
dec_1_export = record {
  decision_id = "dec_1";
  run_id = "run_1";
  event_count = 1;
  events = audit_event "dec_1" linked_request ∷ [];
}

dec_1-exported :
    export_decision_audit
      (memory_store id_digest)
      id_digest
      (store_of id_digest (triage ∷ asking ∷ []))
      "dec_1"
    ≡ ok dec_1_export
unfolding export_decision_audit night_ledger.Audit.export_run night_ledger.Audit.sorted_run_ids
    night_ledger.Audit.of_decision night_ledger.Audit.decision_id_of
    night_ledger.Audit.verify_hash_chain night_ledger.Audit.verify_from night_ledger.Audit.sealed
    night_ledger.Prelude.Sort.sort_by night_ledger.Prelude.Sort.insert_by
    night_ledger.Prelude.distinct night_ledger.Prelude.filter any night_ledger.Prelude.Dict.values
    night_ledger.Prelude.Dict.lookup night_ledger.Prelude.Dict.insert
    night_ledger.EventStore.build_event_hash Memory.append_all Memory.append Memory.contains
    Memory.commit Memory.records Memory.key_leb Memory.new_record Memory.to_stored_event
    Memory.later_timestamp Memory.list_all Memory.list_by_run_id Memory.flatten
dec_1-exported = refl

export_decision_audit-IsExport_example :
    IsExport
      (memory_store id_digest)
      id_digest
      (store_of id_digest (triage ∷ asking ∷ []))
      "dec_1"
      dec_1_export
export_decision_audit-IsExport_example =
    export_decision_audit-IsExport (memory_store id_digest) id_digest
      (store_of id_digest (triage ∷ asking ∷ [])) "dec_1" dec_1_export dec_1-exported
