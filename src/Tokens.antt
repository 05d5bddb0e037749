-- ===== src/Tokens.antt =====
-- services/execution_token_service.py: the configuration of the execution tokens, and what minting
-- and verification share. The environment's variables are a record. `int` of a text, HMAC-SHA256
-- with its base64 text, and JSON with its base64 text are parameters, collected in `Codec`.
pub mod Keys
pub mod Mint
pub mod Verify
pub mod Sound
pub mod RoundTrip
pub mod Bounds
use Prim.Native.String.{◌++◌}
use night_ledger.Prelude.{
  ℕ, String, Bool, true, false, not, ◌||◌, Option, none, some, List, [], ◌∷◌, ltb, str_eq, is_empty,
  if◌then◌else◌,
}
use night_ledger.Prelude.Dict.{Dict, lookup, insert}
use night_ledger.Prelude.Int.{ℤ, pos, is_nonpositive}
use night_ledger.Prelude.Text.{strip, is_blank, char_count, has_char, split_on, split_once}
use night_ledger.Errors.{Result, ok, raise, execution_token_misconfigured, ◌>>=◌, ◌>>◌}

-- A value of a decoded JSON object. `isinstance(value, int)` holds of a Boolean too.
pub data Json : Type 0 where
  null : Json
  boolean : Bool → Json
  integer : ℤ → Json
  text : String → Json
  other : Json

-- What `json.loads` of the base64 text gives: an exception, an object, or another value.
pub data Decoded : Type 0 where
  undecodable : Decoded
  object : Dict Json → Decoded
  non_object : Decoded

pub record Codec : Type 0 where
  pub encode : Dict Json → String
  pub decode : String → Decoded
  pub sign : (secret message : String) → String
  pub int_of : String → Option ℤ

-- The variables `NIGHTLEDGER_EXECUTION_TOKEN_*`.
pub record Environment : Type 0 where
  pub keys : Option String
  pub secret : Option String
  pub active_kid : Option String
  pub ttl_seconds : Option String

abbrev pub misconfigured {ℓ} : {A : Type ℓ} → String → Result A
misconfigured message = raise (execution_token_misconfigured message)

abbrev pub positive_or_default : Option ℤ → ℤ
positive_or_default none = pos 300
positive_or_default (some value) = if is_nonpositive value then pos 300 else value

abbrev pub ttl_of : (String → Option ℤ) → Option String → ℤ
ttl_of int_of none = pos 300
ttl_of int_of (some configured) = positive_or_default (int_of configured)

unfoldable pub configured_execution_token_ttl_seconds : Codec → Environment → ℤ
configured_execution_token_ttl_seconds codec env = ttl_of codec.int_of env.ttl_seconds

abbrev pub or_v1 : Option String → String
or_v1 none = "v1"
or_v1 (some configured) = if is_blank configured then "v1" else strip configured

unfoldable pub configured_execution_token_active_kid : Environment → String
configured_execution_token_active_kid env = or_v1 env.active_kid

-- `_validate_secret_strength`
unfoldable pub validate_secret_strength : String → Result (Unit {0})
validate_secret_strength secret =
    if ltb (char_count secret) 32
    then misconfigured "Execution token secret is too short; minimum length is 32 characters"
    else ok tt
