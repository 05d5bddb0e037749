-- ===== src/Tokens/RoundTrip.antt =====
-- execution_token_service.py: a token that was minted, at its verification.
use Prim.Native.String.{◌++◌}
use night_ledger.Prelude.{
  ◌≤◌, String, true, false, ◌≡◌, refl, ap, sym, ◌∙◌, Option, none, some, ◌++◌ as append, arith,
  str_eq, ltb, eq_refl, Bool-cases, inl, inr, if◌then◌else◌,
}
use night_ledger.Prelude.Dict.{Dict, lookup}
use night_ledger.Prelude.Int.{pos}
use night_ledger.Prelude.Text.{strip, is_blank, is_ascii, has_char}
use night_ledger.Prelude.Text.Split.{split_on-dot}
use night_ledger.Prelude.Text.Blank.{is_blank-strip}
use night_ledger.Prelude.Time.{Datetime, unix}
use night_ledger.Errors.{ok, raise, execution_token_expired, >>=-eq-ok, ◌>>=◌}
use night_ledger.Tokens.{
  Json, object, Codec, Environment, or_v1, configured_execution_token_active_kid,
}
use night_ledger.Tokens.Keys.{
  active_key, known_key, configured_execution_token_key_map, resolve_signing_secret,
  resolve_verification_secret,
}
use night_ledger.Tokens.Mint.{
  MintRequest, text_entry, nonblank, expiry, token_payload, signed_token, mint_execution_token,
}
use night_ledger.Tokens.Verify.{
  Claims, Expected, or_null, get, as_optional_text, exp_text, hash_differs, key_id, compare_digest,
  read_claims, check_claims, verify_signed, verify_execution_token,
}

-- What base64 and JSON do with an object, and base64 with a signature: the object comes back with
-- the same entries, and the texts are of ASCII, not empty and without a dot.
pub record Carries (codec : Codec) (payload : Dict Json) (secret : String) : Type 0 where
  pub back : Dict Json
  pub decoded : codec.decode (codec.encode payload) ≡ object back
  pub same : (key : String) → lookup key back ≡ lookup key payload
  pub payload_given : str_eq (codec.encode payload) "" ≡ false
  pub payload_dotless : has_char b'.' (codec.encode payload) ≡ false
  pub signature_given : str_eq (codec.sign secret (codec.encode payload)) "" ≡ false
  pub signature_dotless : has_char b'.' (codec.sign secret (codec.encode payload)) ≡ false
  pub signature_ascii : is_ascii (codec.sign secret (codec.encode payload)) ≡ true

-- The claims that a request asks for.
unfoldable pub claims_of : MintRequest → String → String → Datetime → Datetime → Claims
claims_of asked kid uuid issued_at expires_at = record {
  decision_id = asked.decision_id;
  action = asked.action;
  exp = pos (unix expires_at);
  exp_iso = exp_text (pos (unix expires_at));
  nbf = pos (unix issued_at);
  jti = "jti_" ++ uuid;
  kid = kid;
  payload_hash = asked.payload_hash;
  run_id = nonblank asked.run_id;
}

hash_entry :
    (h r : Option String)
    → as_optional_text (
        or_null
          (lookup "payload_hash" (append (text_entry "payload_hash" h) (text_entry "run_id" r))))
      ≡ ok h
unfolding lookup
hash_entry none none = refl
hash_entry none (some r) = refl
hash_entry (some h) r = refl

run_entry :
    (h r : Option String)
    → as_optional_text
        (or_null (lookup "run_id" (append (text_entry "payload_hash" h) (text_entry "run_id" r))))
      ≡ ok r
unfolding lookup
run_entry none none = refl
run_entry none (some r) = refl
run_entry (some h) none = refl
run_entry (some h) (some r) = refl

module _ (asked : MintRequest) (kid uuid : String) (issued_at expires_at : Datetime) where
  read_claims-minted :
      (d : Dict Json)
      → ((key : String)
          → lookup key d ≡ lookup key (token_payload asked kid uuid issued_at expires_at))
      → read_claims d kid ≡ ok (claims_of asked kid uuid issued_at expires_at)
  unfolding read_claims get token_payload lookup claims_of
  read_claims-minted d same =
      rw
        (
          same "action",
          same "decision_id",
          same "exp",
          same "nbf",
          same "jti",
          same "payload_hash",
          same "run_id",
          hash_entry asked.payload_hash (nonblank asked.run_id),
          run_entry asked.payload_hash (nonblank asked.run_id),
        )
        refl

  key_id-minted :
      (d : Dict Json)
      → ((key : String)
          → lookup key d ≡ lookup key (token_payload asked kid uuid issued_at expires_at))
      → is_blank kid ≡ false
      → key_id (get d "kid") ≡ ok kid
  unfolding get token_payload lookup
  key_id-minted d same h = rw (same "kid", h) refl

  check_claims-minted :
      (now : Datetime) (expected : Expected)
      → issued_at ≤ now
      → asked.action ≡ expected.action
      → hash_differs expected.payload_hash asked.payload_hash ≡ false
      → check_claims (unix now) expected (claims_of asked kid uuid issued_at expires_at) ≡ (
          if ltb (unix now) (unix expires_at)
          then ok (claims_of asked kid uuid issued_at expires_at)
          else raise execution_token_expired)
  unfolding check_claims claims_of unix
  check_claims-minted now expected le same bound =
      rw (same, eq_refl expected.action, bound) (ground arith)

v1_given : is_blank "v1" ≡ false
unfolding is_blank strip
v1_given = refl

or_v1-nonblank : (configured : Option String) → is_blank (or_v1 configured) ≡ false
or_v1-nonblank none = v1_given
or_v1-nonblank (some configured) = elim (Bool-cases (is_blank configured)) [
  | inl e ↦ rw (e) v1_given
  | inr e ↦ rw (e) (is_blank-strip configured ∙ e)
]

active_key-eq :
    (wanted : String) (found : Option String) (kid secret : String)
    → active_key wanted found ≡ ok (kid, secret)
    → (wanted ≡ kid) × (found ≡ some secret)
active_key-eq wanted none kid secret h = cc
active_key-eq wanted (some s) kid secret h = (ground arith, ground arith)

-- The key that signs is the one that the verification looks up.
pub signing-verification :
    (env : Environment) (asked_kid : Option String) (kid secret : String)
    → resolve_signing_secret env none asked_kid ≡ ok (kid, secret)
    → (resolve_verification_secret env none kid none ≡ ok secret) × (is_blank kid ≡ false)
unfolding resolve_signing_secret resolve_verification_secret configured_execution_token_active_kid
signing-verification env asked_kid kid secret h =
    let (keys, configured, active) =
      >>=-eq-ok (configured_execution_token_key_map env) (λ _. _) h in
    let (e, found) =
      active_key-eq (or_v1 env.active_kid) (lookup (or_v1 env.active_kid) keys) kid secret active in
    (
      rw (configured) (ap (λ k. known_key (lookup k keys)) (sym e) ∙ ap known_key found),
      ap is_blank (sym e) ∙ or_v1-nonblank env.active_kid,
    )

verify-signed_token :
    (codec : Codec) (env : Environment) (now : Datetime) (expected : Expected) (payload : Dict Json)
    (secret : String)
    → (c : Carries codec payload secret) → (kid : String) → key_id (get c.back "kid") ≡ ok kid
    → resolve_verification_secret env expected.secret kid expected.key_map ≡ ok secret
    → verify_execution_token codec env now expected (signed_token codec secret payload)
      ≡ (read_claims c.back kid >>= check_claims (unix now) expected)
unfolding verify_execution_token verify_signed signed_token compare_digest
verify-signed_token codec env now expected payload secret c kid key known =
    rw
      (
        split_on-dot (codec.encode payload) (codec.sign secret (codec.encode payload))
            c.payload_dotless c.signature_dotless,
        c.payload_given,
        c.signature_given,
        c.decoded,
        key,
        known,
        c.signature_ascii,
        eq_refl (codec.sign secret (codec.encode payload)),
      )
      refl

-- What a caller that keeps to the request passes to the verification.
abbrev pub expecting : MintRequest → Option String → Expected
expecting asked hash = record {
  action = asked.action;
  secret = none;
  payload_hash = hash;
  key_map = none;
}

-- A token that was minted with the configured keys for some request and is verified at its issue
-- or later, with the configured keys, for the action of the request and no hash or the hash of the
-- request, passes before its expiry, and the claims are those that the request asked for; from its
-- expiry on, it is an expired token.
pub minted-verified :
    (codec : Codec)
    → (env : Environment) → (issued_at now : Datetime) → (uuid kid secret : String)
    → (asked : MintRequest) → (hash : Option String)
    → resolve_signing_secret env none asked.kid ≡ ok (kid, secret)
    → asked.secret ≡ none
    → Carries codec
        (token_payload asked kid uuid issued_at (expiry codec env issued_at asked.ttl_seconds))
        secret
    → issued_at ≤ now
    → hash_differs hash asked.payload_hash ≡ false
    → (mint_execution_token codec env issued_at uuid asked >>= λ minted.
        verify_execution_token codec env now (expecting asked hash) minted.0)
      ≡ (if ltb (unix now) (unix (expiry codec env issued_at asked.ttl_seconds))
          then ok
              (claims_of asked kid uuid issued_at (expiry codec env issued_at asked.ttl_seconds))
          else raise execution_token_expired)
unfolding mint_execution_token claims_of
minted-verified codec env issued_at now uuid kid secret asked hash keys configured c le bound =
    let (known, named) = signing-verification env asked.kid kid secret keys in
    let expires_at = expiry codec env issued_at asked.ttl_seconds in
    rw
      (
        configured,
        keys,
        verify-signed_token codec env now (expecting asked hash)
            (token_payload asked kid uuid issued_at expires_at) secret c kid
            (key_id-minted asked kid uuid issued_at expires_at c.back c.same named) known,
        read_claims-minted asked kid uuid issued_at expires_at c.back c.same,
      )
      (check_claims-minted asked kid uuid issued_at expires_at now (expecting asked hash) le refl
        bound)
