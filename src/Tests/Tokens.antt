-- ===== src/Tests/Tokens.antt =====
-- A token of the demo at its minting and its verification.
use night_ledger.Prelude.{
  ℕ, ◌+◌, ◌*◌, ◌↔◌, String, Bool, true, false, ◌≡◌, refl, Option, none, some, List, [], ◌∷◌, arith,
  str_eq, if◌then◌else◌,
}
use night_ledger.Prelude.Dict.{Dict, lookup}
use night_ledger.Prelude.Time.{Datetime, demo_time, second}
use night_ledger.Errors.{ok, raise, uncaught, ◌>>=◌}
use night_ledger.Prelude.Text.{is_blank, split_on}
use night_ledger.Tokens.{Json, Decoded, undecodable, object, non_object, Codec, Environment}
use night_ledger.Tokens.Keys.{resolve_signing_secret, resolve_verification_secret}
use night_ledger.Tokens.Mint.{MintRequest, expiry, token_payload, mint_execution_token}
use night_ledger.Tokens.Verify.{Claims, verify_execution_token}
use night_ledger.Tokens.Sound.{IsAuthentic, verified-iff_IsAuthentic}
use night_ledger.Tokens.RoundTrip.{Carries, claims_of, expecting, minted-verified}
use night_ledger.Tokens.Bounds.{IsStrong, verification_secret-IsStrong, signing_secret-IsStrong}

abbrev pub test_secret : String
test_secret = "0123456789abcdef0123456789abcdef"

-- The keys of the demo: two, of which the second is active.
abbrev pub test_env : Environment
test_env = record {
  keys = some "v1:fedcba9876543210fedcba9876543210, v2 : 0123456789abcdef0123456789abcdef";
  secret = none;
  active_kid = some " v2 ";
  ttl_seconds = none;
}

abbrev pub test_request : MintRequest
test_request = record {
  decision_id = "dec_1";
  action = "purchase.create";
  secret = none;
  ttl_seconds = none;
  payload_hash = some "10.0";
  run_id = some "run_1";
  kid = none;
}

abbrev pub test_payload : Dict Json
test_payload = token_payload test_request "v2" "0f" demo_time (demo_time + 300 * second)

-- A codec of one object.
abbrev pub test_codec : Codec
test_codec = record {
  encode = λ payload. "eyJ9";
  decode = λ s.
      if str_eq s "eyJ9"
      then object test_payload
      else if str_eq s "W10"
      then non_object
      else undecodable;
  sign = λ secret message. if str_eq secret test_secret then "c2ln" else "eA";
  int_of = λ s. none;
}

pub test_keys : resolve_signing_secret test_env none none ≡ ok ("v2", test_secret)
unfolding resolve_signing_secret night_ledger.Prelude.Text.is_blank
    night_ledger.Prelude.Text.split_on night_ledger.Prelude.Text.has_char
    night_ledger.Prelude.Text.split_once night_ledger.Prelude.Text.char_count
    night_ledger.Prelude.Dict.insert lookup
test_keys = refl

pub test-Carries : Carries test_codec test_payload test_secret
unfolding night_ledger.Prelude.Text.has_char night_ledger.Prelude.Text.is_ascii
test-Carries = record {
  back = test_payload;
  decoded = refl;
  same = λ key. refl;
  payload_given = refl;
  payload_dotless = refl;
  signature_given = refl;
  signature_dotless = refl;
  signature_ascii = refl;
}

-- A list for a payload is an exception of Python.
non_object_token :
    verify_execution_token test_codec test_env demo_time (expecting test_request none) "W10.c2ln"
    ≡ raise (uncaught "AttributeError")
unfolding verify_execution_token split_on
non_object_token = refl

-- So is a signature with a letter that is not of ASCII.
non_ascii_token :
    verify_execution_token test_codec test_env demo_time (expecting test_request none) "eyJ9.é"
    ≡ raise (uncaught "TypeError")
unfolding verify_execution_token split_on lookup token_payload is_blank
    night_ledger.Tokens.Keys.configured_execution_token_key_map night_ledger.Prelude.Text.has_char
    night_ledger.Prelude.Text.split_once night_ledger.Prelude.Text.char_count
    night_ledger.Prelude.Dict.insert night_ledger.Prelude.Text.is_ascii
non_ascii_token = refl

verification_secret-IsStrong_example : IsStrong test_secret
unfolding resolve_verification_secret night_ledger.Tokens.Keys.configured_execution_token_key_map
    night_ledger.Prelude.Text.is_blank night_ledger.Prelude.Text.split_on
    night_ledger.Prelude.Text.has_char night_ledger.Prelude.Text.split_once
    night_ledger.Prelude.Text.char_count night_ledger.Prelude.Dict.insert lookup
verification_secret-IsStrong_example =
    verification_secret-IsStrong test_env none "v2" test_secret refl

signing_secret-IsStrong_example : IsStrong test_secret × (is_blank "v2" ≡ false)
signing_secret-IsStrong_example =
    signing_secret-IsStrong test_env none none "v2" test_secret test_keys

abbrev pub test_claims : Claims
test_claims = claims_of test_request "v2" "0f" demo_time (demo_time + 300 * second)

minted-verified_example :
    (mint_execution_token test_codec test_env demo_time "0f" test_request >>= λ minted.
    verify_execution_token test_codec test_env
      (demo_time + 299 * second)
      (expecting test_request (some "10.0"))
      minted.0)
    ≡ ok test_claims
unfolding expiry night_ledger.Tokens.configured_execution_token_ttl_seconds
    night_ledger.Prelude.Time.unix
minted-verified_example =
    minted-verified test_codec test_env demo_time (demo_time + 299 * second) "0f" "v2" test_secret
      test_request (some "10.0") test_keys refl test-Carries (omega arith) refl

verified-iff_IsAuthentic_example :
    (verify_execution_token test_codec test_env demo_time (expecting test_request none) "eyJ9.c2ln"
      ≡ ok test_claims)
    ↔ IsAuthentic test_codec test_env demo_time
        (expecting test_request none)
        "eyJ9.c2ln"
        test_claims
verified-iff_IsAuthentic_example =
    verified-iff_IsAuthentic test_codec test_env demo_time (expecting test_request none) "eyJ9.c2ln"
      test_claims

-- Both sides hold.
test_verified :
    verify_execution_token test_codec test_env demo_time (expecting test_request none) "eyJ9.c2ln"
    ≡ ok test_claims
unfolding verify_execution_token split_on lookup token_payload is_blank
    night_ledger.Tokens.Keys.configured_execution_token_key_map night_ledger.Prelude.Text.has_char
    night_ledger.Prelude.Text.split_once night_ledger.Prelude.Text.char_count
    night_ledger.Prelude.Dict.insert night_ledger.Prelude.Text.is_ascii
    night_ledger.Prelude.Time.unix claims_of
test_verified = refl
