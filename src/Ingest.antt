-- ===== src/Ingest.antt =====
-- services/event_ingest_service.py, and the ingestion handler of controllers/events_controller.py.
-- pydantic's `EventPayload.model_validate` is a parameter: it makes an event of a raw payload, or
-- lists its errors.
pub mod Outcome
pub mod Projectable
use Prim.Native.String.{◌++◌}
use night_ledger.Prelude.{
  String, Bool, true, false, ◌&&◌, ◌||◌, List, [], ◌∷◌, map, str_eq, if◌then◌else◌, text_leb,
}
use night_ledger.Prelude.Sort.{sort_by}
use night_ledger.Prelude.Text.{ends_with}
use night_ledger.Schema.{EventPayload, StoredEvent}
use night_ledger.Errors.{
  Result, ok, raise, Error, ValidationDetail, schema_validation, storage_write,
  business_rule_validation, duplicate_event, storage_read,
}
use night_ledger.Exec.{Exec, lift, gets, pure, ◌>>=◌, ◌>>◌}
use night_ledger.EventStore.{EventStore}
use night_ledger.BusinessRules.{validate_event_business_rules}

-- An entry of pydantic's `exc.errors()`, with the parts of `loc` as texts.
pub record PydanticError : Type 0 where
  pub loc : List String
  pub msg : String
  pub type : String

pub data Validated : Type 0 where
  valid : EventPayload → Validated
  invalid : List PydanticError → Validated

-- `".".join(parts)`
unfoldable pub join_path : List String → String
join_path [] = ""
join_path (part ∷ []) = part
join_path (part ∷ next ∷ parts) = part ++ "." ++ join_path (next ∷ parts)

unfoldable pub missing_field_code : String → String
missing_field_code path =
    if str_eq path "id"
    then "MISSING_EVENT_ID"
    else if str_eq path "run_id"
    then "MISSING_RUN_ID"
    else if str_eq path "timestamp"
    then "MISSING_TIMESTAMP"
    else if str_eq path "type"
    then "MISSING_EVENT_TYPE"
    else if str_eq path "actor"
    then "MISSING_ACTOR"
    else if str_eq path "title" || str_eq path "details"
    then "MISSING_TIMELINE_FIELDS"
    else if str_eq path "approval"
    then "MISSING_APPROVAL"
    else "MISSING_REQUIRED_FIELD"

unfoldable pub literal_error_code : String → String
literal_error_code path =
    if str_eq path "type"
    then "INVALID_EVENT_TYPE"
    else if str_eq path "actor"
    then "INVALID_ACTOR"
    else if str_eq path "risk_level"
    then "INVALID_RISK_LEVEL"
    else if str_eq path "approval.status"
    then "INVALID_APPROVAL_STATUS"
    else if ends_with path ".kind"
    then "INVALID_EVIDENCE_KIND"
    else "INVALID_ENUM_VALUE"

unfoldable pub map_rule_code : String → String → String
unfolding missing_field_code literal_error_code
map_rule_code path error_type =
    if str_eq error_type "missing"
    then missing_field_code path
    else if str_eq error_type "extra_forbidden"
    then "UNKNOWN_FIELD"
    else if str_eq path "timestamp"
        && (str_eq error_type "value_error"
            || str_eq error_type "datetime_parsing"
            || str_eq error_type "datetime_from_date_parsing")
    then "INVALID_TIMESTAMP"
    else if str_eq path "confidence"
        && (str_eq error_type "greater_than_equal" || str_eq error_type "less_than_equal")
    then "INVALID_CONFIDENCE_BOUNDS"
    else if str_eq path "confidence" && str_eq error_type "float_parsing"
    then "INVALID_CONFIDENCE_TYPE"
    else if (str_eq path "title" || str_eq path "details")
        && (str_eq error_type "string_too_short" || str_eq error_type "missing")
    then "MISSING_TIMELINE_FIELDS"
    else if str_eq path "run_id" && str_eq error_type "string_too_short"
    then "MISSING_RUN_ID"
    else if str_eq error_type "literal_error"
    then literal_error_code path
    else "SCHEMA_VALIDATION_ERROR"

unfoldable pub validation_detail : PydanticError → ValidationDetail
unfolding join_path map_rule_code
validation_detail error =
    let path = join_path error.loc in
    record {
      path = path;
      message = error.msg;
      type = error.type;
      code = map_rule_code path error.type;
    }

abbrev pub path_leb : ValidationDetail → ValidationDetail → Bool
path_leb a b = text_leb a.path b.path

unfoldable pub map_validation_details : List PydanticError → List ValidationDetail
unfolding validation_detail
map_validation_details errors = sort_by path_leb (map validation_detail errors)

abbrev pub validated : Validated → Result EventPayload
validated (valid event) = ok event
validated (invalid errors) = raise (schema_validation (map_validation_details errors))

unfoldable pub validate_event_payload :
    {Raw : Type 0} → (Raw → Validated) → Raw → Result EventPayload
validate_event_payload model_validate payload = validated (model_validate payload)

pub record IngestReply : Type 0 where
  pub event_id : String
  pub integrity_warning : Bool

-- The exceptions of the store and of the rules pass; any other is a write error.
abbrev pub ingest_error : Error → Error
ingest_error (business_rule_validation vs) = business_rule_validation vs
ingest_error (duplicate_event e r) = duplicate_event e r
ingest_error (storage_read m) = storage_read m
ingest_error (storage_write m) = storage_write m
ingest_error _ = storage_write "storage backend append failed"

abbrev pub reraise {ℓ} : {A : Type ℓ} → (Error → Error) → Result A → Result A
reraise f (ok a) = ok a
reraise f (raise e) = raise (f e)

abbrev pub ingest_reply : StoredEvent → IngestReply
ingest_reply stored = record { event_id = stored.id; integrity_warning = stored.integrity_warning }

module _ {S Raw : Type 0} (store : EventStore S) (model_validate : Raw → Validated) where
  -- The body of the `try`.
  unfoldable pub admit : EventPayload → Exec S StoredEvent
  admit event = do
    existing ← gets (λ s. store.list_by_run_id s event.run_id)
    lift (validate_event_business_rules event existing)
    λ s. store.append s event

  abbrev pub tried : EventPayload → Exec S StoredEvent
  tried event s = let r = admit event s in (r.0, reraise ingest_error r.1)

  -- `POST /v1/events`
  unfoldable pub ingest_event : Raw → Exec S IngestReply
  unfolding admit
  ingest_event payload = do
    event ← lift (validate_event_payload model_validate payload)
    stored ← tried event
    pure (ingest_reply stored)
