-- ===== src/Tokens/Mint.antt =====
-- services/execution_token_service.py: minting a token. The clock is past 1970.
use Prim.Native.String.{◌++◌}
use night_ledger.Prelude.{
  ◌+◌, ◌-◌, ◌*◌, suc, String, Option, none, some, [], ◌∷◌, ◌++◌ as append, if◌then◌else◌,
}
use night_ledger.Prelude.Dict.{Dict}
use night_ledger.Prelude.Int.{ℤ, pos, negsuc}
use night_ledger.Prelude.Text.{strip, is_blank}
use night_ledger.Prelude.Time.{Datetime, second, unix, format_timestamp}
use night_ledger.Errors.{Result, ok, ◌>>=◌}
use night_ledger.Tokens.{
  Json, integer, text, Codec, Environment, configured_execution_token_ttl_seconds,
}
use night_ledger.Tokens.Keys.{resolve_signing_secret}

-- The arguments of `mint_execution_token` that a caller chooses.
pub record MintRequest : Type 0 where
  pub decision_id : String
  pub action : String
  pub secret : Option String
  pub ttl_seconds : Option ℤ
  pub payload_hash : Option String
  pub run_id : Option String
  pub kid : Option String

abbrev pub add_seconds : Datetime → ℤ → Datetime
add_seconds t (pos n) = t + n * second
add_seconds t (negsuc n) = t - suc n * second

abbrev pub chosen_ttl : Codec → Environment → Option ℤ → ℤ
chosen_ttl codec env none = configured_execution_token_ttl_seconds codec env
chosen_ttl codec env (some ttl) = ttl

unfoldable pub expiry : Codec → Environment → Datetime → Option ℤ → Datetime
expiry codec env now ttl = add_seconds now (chosen_ttl codec env ttl)

abbrev pub text_entry : String → Option String → Dict Json
text_entry key none = []
text_entry key (some s) = (key, text s) ∷ []

abbrev pub nonblank : Option String → Option String
nonblank none = none
nonblank (some s) = if is_blank s then none else some (strip s)

-- The object that the token carries.
unfoldable pub token_payload : MintRequest → String → String → Datetime → Datetime → Dict Json
token_payload asked kid uuid issued_at expires_at =
    ("decision_id", text asked.decision_id)
    ∷ ("action", text asked.action)
    ∷ ("exp", integer (pos (unix expires_at)))
    ∷ ("nbf", integer (pos (unix issued_at)))
    ∷ ("jti", text ("jti_" ++ uuid))
    ∷ ("kid", text kid)
    ∷ append (text_entry "payload_hash" asked.payload_hash)
        (text_entry "run_id" (nonblank asked.run_id))

-- `f"{payload_b64}.{signature_b64}"`
unfoldable pub signed_token : Codec → String → Dict Json → String
signed_token codec secret payload =
    codec.encode payload ++ ("." ++ codec.sign secret (codec.encode payload))

-- The token and its expiry, as a text.
unfoldable pub mint_execution_token :
    Codec → Environment → Datetime → String → MintRequest → Result (String × String)
unfolding resolve_signing_secret expiry token_payload signed_token
mint_execution_token codec env issued_at uuid asked =
    let expires_at = expiry codec env issued_at asked.ttl_seconds in
    resolve_signing_secret env asked.secret asked.kid >>= λ (kid, secret). ok (
      signed_token codec secret (token_payload asked kid uuid issued_at expires_at),
      format_timestamp expires_at,
    )
