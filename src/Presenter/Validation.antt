-- ===== src/Presenter/Validation.antt =====
-- presenters/error_presenter.py and main.py: the replies to a request that FastAPI refuses.
use night_ledger.Prelude.{
  String, Bool, ◌&&◌, ◌||◌, Option, none, some, List, [], ◌∷◌, ◌++◌ as append, str_eq,
  if◌then◌else◌, text_leb, distinct,
}
use night_ledger.Prelude.Sort.{sort_by}
use text.Mathlib.Text.{starts_with}
use night_ledger.Ingest.{PydanticError, join_path}
use night_ledger.Presenter.{Detail, ErrorBody, Response, plain_detail}

-- `_map_approval_validation_code`
unfoldable pub map_approval_validation_code : (path error_type : String) → String
map_approval_validation_code path error_type =
    if str_eq path "decision"
    then (if str_eq error_type "missing"
        then "MISSING_APPROVAL_DECISION"
        else "INVALID_APPROVAL_DECISION")
    else if str_eq path "approver_id"
    then (if str_eq error_type "missing" || str_eq error_type "string_too_short"
        then "MISSING_APPROVER_ID"
        else "INVALID_APPROVER_ID")
    else "REQUEST_VALIDATION_ERROR"

-- `_map_approval_rule_id`
unfoldable pub map_approval_rule_id : String → Option String
map_approval_rule_id detail_code =
    if str_eq detail_code "MISSING_APPROVAL_DECISION"
      || str_eq detail_code "INVALID_APPROVAL_DECISION"
    then some "RULE-GATE-004"
    else if str_eq detail_code "MISSING_APPROVER_ID"
    then some "RULE-GATE-007"
    else none

abbrev pub missing_or : (error_type missing invalid : String) → String
missing_or error_type missing invalid = if str_eq error_type "missing" then missing else invalid

-- `_map_authorize_action_validation_code`
unfoldable pub map_authorize_action_validation_code : (path error_type : String) → String
map_authorize_action_validation_code path error_type =
    if str_eq path "intent"
    then missing_or error_type "MISSING_INTENT" "INVALID_INTENT"
    else if str_eq path "context"
    then missing_or error_type "MISSING_CONTEXT" "INVALID_CONTEXT"
    else if str_eq path "intent.action"
    then missing_or error_type "MISSING_ACTION" "INVALID_ACTION"
    else if str_eq path "context.user_id"
    then (if str_eq error_type "missing" || str_eq error_type "string_too_short"
        then "MISSING_USER_ID"
        else "INVALID_USER_ID")
    else if str_eq path "context.amount"
    then missing_or error_type "MISSING_AMOUNT" "INVALID_AMOUNT"
    else if str_eq path "context.currency"
    then missing_or error_type "MISSING_CURRENCY" "UNSUPPORTED_CURRENCY"
    else if str_eq path "context.transport_decision_hint"
    then missing_or error_type "MISSING_TRANSPORT_DECISION_HINT" "INVALID_TRANSPORT_DECISION_HINT"
    else "REQUEST_VALIDATION_ERROR"

-- The order of the key `(path, code, type)`.
abbrev pub detail_leb : Detail → Detail → Bool
detail_leb a b =
    if str_eq a.path b.path
    then (if str_eq a.code b.code then text_leb a.type b.type else text_leb a.code b.code)
    else text_leb a.path b.path

-- The path of an error in the body of a request.
abbrev pub body_path : List String → Option String
body_path (place ∷ part ∷ parts) =
    if str_eq place "body" then some (join_path (part ∷ parts)) else none
body_path _ = none

abbrev pub approval_detail : PydanticError → Option String → List Detail
approval_detail error none = []
approval_detail error (some path) =
    plain_detail path error.msg error.type (map_approval_validation_code path error.type) ∷ []

-- The loop over the errors: the details, in their order.
unfoldable pub approval_details : List PydanticError → List Detail
unfolding map_approval_validation_code join_path
approval_details [] = []
approval_details (error ∷ errors) =
    append (approval_detail error (body_path error.loc)) (approval_details errors)

abbrev pub to_list : Option String → List String
to_list none = []
to_list (some s) = s ∷ []

unfoldable pub rule_ids_of : List Detail → List String
unfolding map_approval_rule_id
rule_ids_of [] = []
rule_ids_of (detail ∷ details) =
    append (to_list (map_approval_rule_id detail.code)) (rule_ids_of details)

unfoldable pub present_approval_request_validation_error : List PydanticError → ErrorBody
unfolding approval_details rule_ids_of
present_approval_request_validation_error errors = record {
  code = "REQUEST_VALIDATION_ERROR";
  message = "Approval request payload failed validation";
  rule_ids = some (sort_by text_leb (distinct (rule_ids_of (approval_details errors))));
  details = sort_by detail_leb (approval_details errors);
}

-- The path of an error, without the word `body` in front of it.
abbrev pub path_within : String → List String → String
path_within place parts = if str_eq place "body" then join_path parts else join_path (place ∷ parts)

unfoldable pub authorize_details : List PydanticError → List Detail
unfolding map_authorize_action_validation_code join_path
authorize_details [] = []
authorize_details (error ∷ errors) =
    let rest = authorize_details errors in
    elim error.loc [
      | [] ↦ rest
      | place ∷ parts ↦
          plain_detail (path_within place parts) error.msg error.type
            (map_authorize_action_validation_code (path_within place parts) error.type)
          ∷ rest
    ]

unfoldable pub present_authorize_action_validation_errors : List PydanticError → ErrorBody
unfolding authorize_details
present_authorize_action_validation_errors errors = record {
  code = "REQUEST_VALIDATION_ERROR";
  message = "authorize_action payload failed validation";
  rule_ids = none;
  details = sort_by detail_leb (authorize_details errors);
}

-- `handle_request_validation_error`; FastAPI's own handler is an argument.
unfoldable pub handle_request_validation_error :
    (List PydanticError → Response) → (method path : String) → List PydanticError → Response
unfolding present_authorize_action_validation_errors present_approval_request_validation_error
handle_request_validation_error otherwise method path errors =
    if str_eq method "POST" && str_eq path "/v1/mcp/authorize_action"
    then record { status_code = 422; content = present_authorize_action_validation_errors errors }
    else if str_eq method "POST" && starts_with path "/v1/approvals/"
    then record { status_code = 422; content = present_approval_request_validation_error errors }
    else otherwise errors
