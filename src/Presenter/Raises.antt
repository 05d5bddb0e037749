-- ===== src/Presenter/Raises.antt =====
-- execution_token_service.py and events_controller.py: which exceptions a header and a token raise.
use night_ledger.Prelude.{
  ℕ, String, Bool, true, false, not, ◌||◌, ◌≡◌, refl, ap, sym, ◌∙◌, Option, none, some, List, [],
  ◌∷◌, arith, str_eq, if◌then◌else◌,
}
use night_ledger.Prelude.Dict.{Dict}
use night_ledger.Prelude.Text.{strip, has_char, split_on, split_once}
use night_ledger.Prelude.Time.{Datetime, unix}
use night_ledger.Errors.{
  Result, ok, raise, Error, raise-injective, execution_token_missing, execution_token_invalid,
  execution_token_expired, execution_payload_mismatch, execution_action_mismatch,
  execution_token_misconfigured, uncaught, ◌>>=◌,
}
use night_ledger.Tokens.{
  Json, Decoded, undecodable, object, non_object, Codec, Environment, misconfigured,
  validate_secret_strength,
}
use night_ledger.Tokens.Keys.{
  add_pair, add_pairs, key_map_of, configured_execution_token_key_map, known_key,
  resolve_verification_secret,
}
use night_ledger.Tokens.Verify.{
  Claims, Expected, get, as_text, as_int, as_optional_text, two_parts, decoded_payload, key_id,
  compare_digest, require, read_claims, check_claims, verify_signed, verify_execution_token,
}
use night_ledger.Gate.Execute.{extract_bearer_token}

-- The exceptions of the header and the token.
abbrev pub of_token : Error → Bool
of_token execution_token_missing = true
of_token execution_token_invalid = true
of_token execution_token_expired = true
of_token execution_payload_mismatch = true
of_token (execution_action_mismatch expected held) = true
of_token (execution_token_misconfigured message) = true
of_token (uncaught name) = true
of_token _ = false

abbrev pub Raises : {A : Type 0} → Result A → Type 0
Raises r = (e : Error) → r ≡ raise e → of_token e ≡ true

pub bind-Raises :
    {A B : Type 0} (first : Result A) (next : A → Result B)
    → Raises first
    → ((a : A) → Raises (next a))
    → Raises (first >>= next)
bind-Raises (ok a) next h k = k a
bind-Raises (raise x) next h k = λ e raised. h e (ap (λ y. raise y) (raise-injective raised))

if-Raises :
    {A : Type 0} (b : Bool) (x y : Result A) → Raises x → Raises y → Raises (if b then x else y)
if-Raises true x y h k = h
if-Raises false x y h k = k

ok-Raises : {A : Type 0} (a : A) → Raises (ok a)
ok-Raises a e h = cc

raise-Raises : (A : Type 0) (x : Error) → of_token x ≡ true → Raises {A = A} (raise x)
raise-Raises A x h e raised = ap of_token (sym (raise-injective raised)) ∙ h

misconfigured-Raises : {A : Type 0} (message : String) → Raises {A = A} (misconfigured message)
misconfigured-Raises message = raise-Raises _ _ refl

validate-Raises : (secret : String) → Raises (validate_secret_strength secret)
unfolding validate_secret_strength
validate-Raises secret e raised = ground arith

two_parts-Raises : (parts : List String) → Raises (two_parts parts)
two_parts-Raises [] = raise-Raises _ _ refl
two_parts-Raises (a ∷ []) = raise-Raises _ _ refl
two_parts-Raises (a ∷ b ∷ []) = if-Raises _ _ _ (raise-Raises _ _ refl) (ok-Raises (a, b))
two_parts-Raises (a ∷ b ∷ c ∷ parts) = raise-Raises _ _ refl

decoded_payload-Raises : (d : Decoded) → Raises (decoded_payload d)
decoded_payload-Raises undecodable = raise-Raises _ _ refl
decoded_payload-Raises (object p) = ok-Raises p
decoded_payload-Raises non_object = raise-Raises _ _ refl

key_id-Raises : (j : Json) → Raises (key_id j)
key_id-Raises (Json.text kid) = if-Raises _ _ _ (raise-Raises _ _ refl) (ok-Raises kid)
key_id-Raises Json.null = raise-Raises _ _ refl
key_id-Raises (Json.boolean b) = raise-Raises _ _ refl
key_id-Raises (Json.integer n) = raise-Raises _ _ refl
key_id-Raises Json.other = raise-Raises _ _ refl

as_text-Raises : (j : Json) → Raises (as_text j)
as_text-Raises (Json.text s) = ok-Raises s
as_text-Raises Json.null = raise-Raises _ _ refl
as_text-Raises (Json.boolean b) = raise-Raises _ _ refl
as_text-Raises (Json.integer n) = raise-Raises _ _ refl
as_text-Raises Json.other = raise-Raises _ _ refl

as_int-Raises : (j : Json) → Raises (as_int j)
as_int-Raises (Json.integer n) = ok-Raises n
as_int-Raises (Json.boolean b) = ok-Raises _
as_int-Raises (Json.text s) = raise-Raises _ _ refl
as_int-Raises Json.null = raise-Raises _ _ refl
as_int-Raises Json.other = raise-Raises _ _ refl

as_optional_text-Raises : (j : Json) → Raises (as_optional_text j)
as_optional_text-Raises (Json.text s) = ok-Raises (some s)
as_optional_text-Raises Json.null = ok-Raises none
as_optional_text-Raises (Json.boolean b) = raise-Raises _ _ refl
as_optional_text-Raises (Json.integer n) = raise-Raises _ _ refl
as_optional_text-Raises Json.other = raise-Raises _ _ refl

read_claims-Raises : (payload : Dict Json) (kid : String) → Raises (read_claims payload kid)
unfolding read_claims
read_claims-Raises payload kid = bind-Raises _ _ (as_text-Raises (get payload "action")) (λ action.
    bind-Raises _ _ (as_text-Raises (get payload "decision_id")) (λ decision_id.
      bind-Raises _ _ (as_int-Raises (get payload "exp")) (λ exp.
        bind-Raises _ _ (as_int-Raises (get payload "nbf")) (λ nbf.
          bind-Raises _ _ (as_text-Raises (get payload "jti")) (λ jti.
            bind-Raises _ _ (as_optional_text-Raises (get payload "payload_hash")) (λ hash.
              bind-Raises _ _ (as_optional_text-Raises (get payload "run_id"))
                (λ run_id. ok-Raises _)))))))

check_claims-Raises :
    (now : ℕ) (expected : Expected) (claims : Claims) → Raises (check_claims now expected claims)
unfolding check_claims
check_claims-Raises now expected claims e raised = ground arith

compare_digest-Raises : (a b : String) → Raises (compare_digest a b)
unfolding compare_digest
compare_digest-Raises a b e raised = ground arith

require-Raises : (b : Bool) → Raises (require b)
require-Raises true = ok-Raises tt
require-Raises false = raise-Raises _ _ refl

add_pair-Raises : (raw : String) (keys : Dict String) → Raises (add_pair raw keys)
unfolding add_pair
add_pair-Raises raw keys =
    let pair = strip raw in
    let kid = strip (split_once b':' pair).0 in
    let secret = strip (split_once b':' pair).1 in
    if-Raises (str_eq pair "" || not (has_char b':' pair)) _ _ (misconfigured-Raises _) (
      if-Raises (str_eq kid "" || str_eq secret "") _ _ (misconfigured-Raises _)
        (bind-Raises _ _ (validate-Raises secret) (λ passed. ok-Raises _)))

add_pairs-Raises : (raws : List String) (keys : Dict String) → Raises (add_pairs raws keys)
unfolding add_pairs
add_pairs-Raises [] keys = ok-Raises keys
add_pairs-Raises (raw ∷ raws) keys =
    bind-Raises _ _ (add_pair-Raises raw keys) (λ more. add_pairs-Raises raws more)

key_map-Raises : (listed legacy : Option String) → Raises (key_map_of listed legacy)
key_map-Raises none none = raise-Raises _ _ refl
key_map-Raises none (some secret) = bind-Raises _ _ (validate-Raises _) (λ passed. ok-Raises _)
key_map-Raises (some listed) legacy =
    bind-Raises _ _ (add_pairs-Raises _ _)
      (λ keys. if-Raises _ _ _ (raise-Raises _ _ refl) (ok-Raises keys))

known_key-Raises : (found : Option String) → Raises (known_key found)
known_key-Raises none = raise-Raises _ _ refl
known_key-Raises (some secret) = ok-Raises secret

resolve_verification_secret-Raises :
    (env : Environment) (kid : String) → Raises (resolve_verification_secret env none kid none)
unfolding resolve_verification_secret configured_execution_token_key_map
resolve_verification_secret-Raises env kid =
    bind-Raises _ _ (key_map-Raises _ _) (λ keys. known_key-Raises _)

pub extract_bearer_token-Raises :
    (authorization : Option String) → Raises (extract_bearer_token authorization)
unfolding extract_bearer_token
extract_bearer_token-Raises none = raise-Raises _ _ refl
extract_bearer_token-Raises (some authorization) = λ e raised. ground arith

module _ (codec : Codec) (env : Environment) (now : Datetime) (expected : Expected) where
  pub verify_execution_token-Raises :
      (token : String)
      → expected.secret ≡ none
      → expected.key_map ≡ none
      → Raises (verify_execution_token codec env now expected token)
  unfolding verify_execution_token verify_signed
  verify_execution_token-Raises token inline passed =
      bind-Raises _ _ (two_parts-Raises (split_on b'.' token)) (λ parts.
        bind-Raises _ _ (decoded_payload-Raises (codec.decode parts.0)) (λ payload.
          bind-Raises _ _ (key_id-Raises (get payload "kid")) (λ kid.
            bind-Raises _ _ (keyed kid) (λ secret.
              bind-Raises _ _ (compare_digest-Raises parts.1 (codec.sign secret parts.0)) (λ same.
                bind-Raises _ _ (require-Raises same) (λ u.
                  bind-Raises _ _ (read_claims-Raises payload kid)
                    (λ claims. check_claims-Raises (unix now) expected claims)))))))
    where
      keyed :
          (kid : String)
          → Raises (resolve_verification_secret env expected.secret kid expected.key_map)
      keyed kid = rw (inline, passed) (resolve_verification_secret-Raises env kid)
