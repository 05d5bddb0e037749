-- ===== src/Tokens/Keys.antt =====
-- services/execution_token_service.py: the map of the keys and the choice of a secret.
use Prim.Native.String.{◌++◌}
use night_ledger.Prelude.{
  String, not, ◌||◌, Option, none, some, List, [], ◌∷◌, str_eq, is_empty, if◌then◌else◌,
}
use night_ledger.Prelude.Dict.{Dict, lookup, insert}
use night_ledger.Prelude.Text.{strip, is_blank, has_char, split_on, split_once}
use night_ledger.Errors.{Result, ok, raise, execution_token_invalid, ◌>>=◌, ◌>>◌}
use night_ledger.Tokens.{
  Environment, misconfigured, validate_secret_strength, configured_execution_token_active_kid,
}

-- A pair `kid:secret` of the list, put into the map.
unfoldable pub add_pair : String → Dict String → Result (Dict String)
unfolding validate_secret_strength
add_pair raw key_map =
    let pair = strip raw in
    let (kid, secret) = split_once b':' pair in
    if str_eq pair "" || not (has_char b':' pair)
    then misconfigured
        "NIGHTLEDGER_EXECUTION_TOKEN_KEYS must use 'kid:secret' comma-separated format"
    else if str_eq (strip kid) "" || str_eq (strip secret) ""
    then misconfigured "NIGHTLEDGER_EXECUTION_TOKEN_KEYS contains empty kid or secret"
    else (validate_secret_strength (strip secret) >> ok (insert (strip kid) (strip secret) key_map))

unfoldable pub add_pairs : List String → Dict String → Result (Dict String)
unfolding add_pair
add_pairs [] key_map = ok key_map
add_pairs (raw ∷ raws) key_map = add_pair raw key_map >>= add_pairs raws

-- `if not key_map`
abbrev pub usable : Dict String → Result (Dict String)
usable key_map =
    if is_empty key_map
    then misconfigured "NIGHTLEDGER_EXECUTION_TOKEN_KEYS did not contain usable keys"
    else ok key_map

abbrev pub given : Option String → Option String
given none = none
given (some s) = if is_blank s then none else some s

abbrev pub legacy_key_map : Option String → Result (Dict String)
legacy_key_map none =
    misconfigured
      "Execution token secret is not configured. Set NIGHTLEDGER_EXECUTION_TOKEN_KEYS or NIGHTLEDGER_EXECUTION_TOKEN_SECRET"
legacy_key_map (some secret) =
    validate_secret_strength (strip secret) >> ok (("v1", strip secret) ∷ [])

abbrev pub key_map_of : Option String → Option String → Result (Dict String)
key_map_of none secret = legacy_key_map secret
key_map_of (some keys) secret = add_pairs (split_on b',' keys) [] >>= usable

unfoldable pub configured_execution_token_key_map : Environment → Result (Dict String)
unfolding add_pairs validate_secret_strength
configured_execution_token_key_map env = key_map_of (given env.keys) (given env.secret)

abbrev pub inline_kid : Option String → String
inline_kid none = "inline"
inline_kid (some kid) = kid

abbrev pub active_key : String → Option String → Result (String × String)
active_key kid none =
    misconfigured ("Active execution token kid '" ++ kid ++ "' not found in configured key map")
active_key kid (some secret) = ok (kid, secret)

-- The key identifier and the secret that sign a token.
unfoldable pub resolve_signing_secret :
    Environment → Option String → Option String → Result (String × String)
unfolding configured_execution_token_key_map configured_execution_token_active_kid
resolve_signing_secret env (some secret) kid =
    validate_secret_strength (strip secret)
    >> (if is_blank (inline_kid kid)
        then misconfigured "Execution token kid must be non-empty"
        else ok (strip (inline_kid kid), strip secret))
resolve_signing_secret env none kid = configured_execution_token_key_map env >>= λ key_map.
    let active_kid = configured_execution_token_active_kid env in
    active_key active_kid (lookup active_kid key_map)

abbrev pub known_key : Option String → Result String
known_key none = raise execution_token_invalid
known_key (some secret) = ok secret

abbrev pub map_or_configured : Environment → Option (Dict String) → Result (Dict String)
map_or_configured env none = configured_execution_token_key_map env
map_or_configured env (some key_map) = ok key_map

-- The secret that a token of this key identifier must be signed with.
unfoldable pub resolve_verification_secret :
    Environment → Option String → String → Option (Dict String) → Result String
resolve_verification_secret env (some secret) kid key_map =
    validate_secret_strength secret >> ok secret
resolve_verification_secret env none kid key_map =
    map_or_configured env key_map >>= λ keys. known_key (lookup kid keys)
