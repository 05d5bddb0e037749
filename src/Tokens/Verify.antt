-- ===== src/Tokens/Verify.antt =====
-- services/execution_token_service.py: the verification of a token.
use night_ledger.Prelude.{
  ℕ, ◌-◌, ◌*◌, suc, String, Bool, true, false, not, ◌&&◌, ◌||◌, Option, none, some, List, [], ◌∷◌,
  str_eq, opt_eq, if◌then◌else◌,
}
use night_ledger.Prelude.Dict.{Dict, lookup}
use night_ledger.Prelude.Int.{ℤ, pos, negsuc, is_less}
use night_ledger.Prelude.Text.{is_blank, is_ascii, split_on}
use night_ledger.Prelude.Time.{Datetime, second, unix, of_unix, format_timestamp}
use night_ledger.Errors.{
  Result, ok, raise, execution_token_invalid, execution_token_expired, execution_action_mismatch,
  execution_payload_mismatch, uncaught, ◌>>=◌, ◌>>◌,
}
use night_ledger.Tokens.{
  Json, null, boolean, integer, text, Decoded, undecodable, object, non_object, Codec, Environment,
}
use night_ledger.Tokens.Keys.{resolve_verification_secret}

pub record Claims : Type 0 where
  pub decision_id : String
  pub action : String
  pub exp : ℤ
  pub exp_iso : String
  pub nbf : ℤ
  pub jti : String
  pub kid : String
  pub payload_hash : Option String
  pub run_id : Option String

-- The arguments of `verify_execution_token` beside the token and the clock.
pub record Expected : Type 0 where
  pub action : String
  pub secret : Option String
  pub payload_hash : Option String
  pub key_map : Option (Dict String)

abbrev pub invalid {ℓ} : {A : Type ℓ} → Result A
invalid = raise execution_token_invalid

-- `payload.get(key)`
abbrev pub or_null : Option Json → Json
or_null none = null
or_null (some value) = value

unfoldable pub get : Dict Json → String → Json
get payload key = or_null (lookup key payload)

-- `isinstance(value, str)`, `isinstance(value, int)`, and a text or None.
abbrev pub as_text : Json → Result String
as_text (text s) = ok s
as_text _ = invalid

abbrev pub as_int : Json → Result ℤ
as_int (integer n) = ok n
as_int (boolean b) = ok (pos (if b then 1 else 0))
as_int _ = invalid

abbrev pub as_optional_text : Json → Result (Option String)
as_optional_text (text s) = ok (some s)
as_optional_text null = ok none
as_optional_text _ = invalid

-- `token.split(".")`: two parts that are not empty.
abbrev pub two_parts : List String → Result (String × String)
two_parts (payload ∷ signature ∷ []) =
    if str_eq payload "" || str_eq signature "" then invalid else ok (payload, signature)
two_parts _ = invalid

-- `payload.get` is no method of a list, a number or a text.
abbrev pub decoded_payload : Decoded → Result (Dict Json)
decoded_payload undecodable = invalid
decoded_payload (object payload) = ok payload
decoded_payload non_object = raise (uncaught "AttributeError")

abbrev pub key_id : Json → Result String
key_id (text kid) = if is_blank kid then invalid else ok kid
key_id _ = invalid

-- `hmac.compare_digest` of two texts wants ASCII.
unfoldable pub compare_digest : String → String → Result Bool
compare_digest a b =
    if is_ascii a && is_ascii b then ok (str_eq a b) else raise (uncaught "TypeError")

abbrev pub require : Bool → Result (Unit {0})
require true = ok tt
require false = invalid

-- `datetime.fromtimestamp(exp, tz=timezone.utc)`
abbrev pub exp_text : ℤ → String
exp_text (pos n) = format_timestamp (of_unix n)
exp_text (negsuc n) = format_timestamp ((62135596800 - suc n) * second)

-- The claims, with values of their types.
unfoldable pub read_claims : Dict Json → String → Result Claims
unfolding get
read_claims payload kid = do
  action ← as_text (get payload "action")
  decision_id ← as_text (get payload "decision_id")
  exp ← as_int (get payload "exp")
  nbf ← as_int (get payload "nbf")
  jti ← as_text (get payload "jti")
  payload_hash ← as_optional_text (get payload "payload_hash")
  run_id ← as_optional_text (get payload "run_id")
  ok (record {
    decision_id = decision_id;
    action = action;
    exp = exp;
    exp_iso = exp_text exp;
    nbf = nbf;
    jti = jti;
    kid = kid;
    payload_hash = payload_hash;
    run_id = run_id;
  })

abbrev pub hash_differs : Option String → Option String → Bool
hash_differs none claimed = false
hash_differs (some hash) claimed = not (opt_eq claimed (some hash))

-- The tests of the claims, in their order.
unfoldable pub check_claims : ℕ → Expected → Claims → Result Claims
check_claims now expected claims =
    if is_less now claims.nbf
    then invalid
    else if not (str_eq claims.action expected.action)
    then raise (execution_action_mismatch expected.action claims.action)
    else if hash_differs expected.payload_hash claims.payload_hash
    then raise execution_payload_mismatch
    else if not (is_less now claims.exp)
    then raise execution_token_expired
    else ok claims

-- The part of the verification that holds a payload and the signature given for it.
unfoldable pub verify_signed : Codec → Environment → ℕ → Expected → String → String → Result Claims
unfolding resolve_verification_secret compare_digest read_claims check_claims get
verify_signed codec env now expected payload_b64 signature_b64 = do
  payload ← decoded_payload (codec.decode payload_b64)
  kid ← key_id (get payload "kid")
  secret ← resolve_verification_secret env expected.secret kid expected.key_map
  same ← compare_digest signature_b64 (codec.sign secret payload_b64)
  require same
  claims ← read_claims payload kid
  check_claims now expected claims

unfoldable pub verify_execution_token :
    Codec → Environment → Datetime → Expected → String → Result Claims
unfolding verify_signed
verify_execution_token codec env now expected token = do
  parts ← two_parts (split_on b'.' token)
  verify_signed codec env (unix now) expected parts.0 parts.1
