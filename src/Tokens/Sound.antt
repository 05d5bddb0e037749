-- ===== src/Tokens/Sound.antt =====
-- execution_token_service.py: which tokens pass the verification.
use night_ledger.Prelude.{
  ℕ, String, Bool, true, false, ◌&&◌, ◌≡◌, ◌↔◌, refl, ap, subst, ◌∙◌, List, [], ◌∷◌, arith, str_eq,
  eq_iff, eq_refl,
}
use night_ledger.Prelude.Dict.{Dict}
use night_ledger.Prelude.Int.{is_less}
use night_ledger.Prelude.Text.{is_ascii, split_on}
use night_ledger.Prelude.Time.{Datetime, unix}
use night_ledger.Errors.{ok, >>=-eq-ok}
use night_ledger.Tokens.{Json, Decoded, undecodable, object, non_object, Codec, Environment}
use night_ledger.Tokens.Keys.{resolve_verification_secret}
use night_ledger.Tokens.Verify.{
  Claims, Expected, get, two_parts, decoded_payload, key_id, compare_digest, require, read_claims,
  check_claims, hash_differs, verify_signed, verify_execution_token,
}

module _ (codec : Codec) (env : Environment) (now : ℕ) (expected : Expected)
    (payload_b64 signature_b64 : String) where
  -- A payload and a signature that the verification accepts.
  pub record IsSigned (claims : Claims) : Type 0 where
    pub payload : Dict Json
    pub decoded : codec.decode payload_b64 ≡ object payload
    pub kid : String
    pub key : key_id (get payload "kid") ≡ ok kid
    pub secret : String
    pub known : resolve_verification_secret env expected.secret kid expected.key_map ≡ ok secret
    pub ascii : (is_ascii signature_b64 && is_ascii (codec.sign secret payload_b64)) ≡ true
    pub signed : signature_b64 ≡ codec.sign secret payload_b64
    pub read : read_claims payload kid ≡ ok claims
    pub started : is_less now claims.nbf ≡ false
    pub action : claims.action ≡ expected.action
    pub bound : hash_differs expected.payload_hash claims.payload_hash ≡ false
    pub running : is_less now claims.exp ≡ true

  decoded_object : (d : Decoded) (p : Dict Json) → decoded_payload d ≡ ok p → d ≡ object p
  decoded_object undecodable p h = cc
  decoded_object (object q) p h = cc
  decoded_object non_object p h = cc

  check_claims-ok :
      (c claims : Claims)
      → check_claims now expected c ≡ ok claims
      → (c ≡ claims)
        × (is_less now c.nbf ≡ false)
        × (c.action ≡ expected.action)
        × (hash_differs expected.payload_hash c.payload_hash ≡ false)
        × (is_less now c.exp ≡ true)
  unfolding check_claims
  check_claims-ok c claims h = (
    ground arith,
    ground arith,
    (eq_iff c.action expected.action).0 (ground arith),
    ground arith,
    ground arith,
  )

  compared :
      (a b : String) (same : Bool)
      → compare_digest a b ≡ ok same
      → require same ≡ ok tt
      → ((is_ascii a && is_ascii b) ≡ true) × (a ≡ b)
  unfolding compare_digest
  compared a b true h k = (ground arith, (eq_iff a b).0 (ground arith))
  compared a b false h k = cc

  pub verify_signed-IsSigned :
      (claims : Claims)
      → verify_signed codec env now expected payload_b64 signature_b64 ≡ ok claims
      → IsSigned claims
  unfolding verify_signed
  verify_signed-IsSigned claims h =
      let (payload, decoded, h1) =
        >>=-eq-ok (decoded_payload (codec.decode payload_b64)) (λ _. _) h in
      let (kid, key, h2) = >>=-eq-ok (key_id (get payload "kid")) (λ _. _) h1 in
      let (secret, known, h3) =
        >>=-eq-ok (resolve_verification_secret env expected.secret kid expected.key_map) (λ _. _)
          h2 in
      let (same, compare, h4) =
        >>=-eq-ok (compare_digest signature_b64 (codec.sign secret payload_b64)) (λ _. _) h3 in
      let (u, required, h5) = >>=-eq-ok (require same) (λ _. _) h4 in
      let (c, read, checked) = >>=-eq-ok (read_claims payload kid) (λ _. _) h5 in
      let (ascii, signed) =
        compared signature_b64 (codec.sign secret payload_b64) same compare required in
      let (e, started, action, bound, running) = check_claims-ok c claims checked in
      subst IsSigned e record {
        payload = payload;
        decoded = decoded_object (codec.decode payload_b64) payload decoded;
        kid = kid;
        key = key;
        secret = secret;
        known = known;
        ascii = ascii;
        signed = signed;
        read = read;
        started = started;
        action = action;
        bound = bound;
        running = running;
      }

  pub IsSigned-verify_signed :
      (claims : Claims)
      → IsSigned claims
      → verify_signed codec env now expected payload_b64 signature_b64 ≡ ok claims
  unfolding verify_signed
  IsSigned-verify_signed claims g = rw (g.decoded, g.key, g.known, compares, g.read) checks
    where
      compares : compare_digest signature_b64 (codec.sign g.secret payload_b64) ≡ ok true
      compares =
          unfold compare_digest in
          rw (g.ascii)
            (ap ok (ap (λ x. str_eq x (codec.sign g.secret payload_b64)) g.signed ∙ eq_refl _))

      checks : check_claims now expected claims ≡ ok claims
      checks =
          unfold check_claims in
          rw (g.started, g.action, eq_refl expected.action, g.bound, g.running) refl

-- A token of exactly two parts, neither empty, the second of which signs the first.
pub record IsAuthentic (codec : Codec) (env : Environment) (now : Datetime) (expected : Expected)
    (token : String) (claims : Claims) : Type 0 where
  pub payload_b64 : String
  pub signature_b64 : String
  pub split : split_on b'.' token ≡ payload_b64 ∷ signature_b64 ∷ []
  pub payload_given : str_eq payload_b64 "" ≡ false
  pub signature_given : str_eq signature_b64 "" ≡ false
  pub signs : IsSigned codec env (unix now) expected payload_b64 signature_b64 claims

two_parts-eq :
    (parts : List String) (p s : String)
    → two_parts parts ≡ ok (p, s)
    → (parts ≡ p ∷ s ∷ []) × (str_eq p "" ≡ false) × (str_eq s "" ≡ false)
two_parts-eq [] p s h = cc
two_parts-eq (a ∷ []) p s h = cc
two_parts-eq (a ∷ b ∷ c ∷ parts) p s h = cc
two_parts-eq (a ∷ b ∷ []) p s h = (ground arith, ground arith, ground arith)

-- A token passes the verification with some claims exactly if it has two parts, neither of them
-- empty, of which the second is the signature of the first under the secret of the key that the
-- first names, the claims are those of the first part, they name the expected action and, if one
-- is expected, the expected hash, and the clock is not before `nbf` and is before `exp`.
pub verified-iff_IsAuthentic :
    (codec : Codec) (env : Environment) (now : Datetime) (expected : Expected) (token : String)
    (claims : Claims)
    → (verify_execution_token codec env now expected token ≡ ok claims)
      ↔ IsAuthentic codec env now expected token claims
unfolding verify_execution_token
verified-iff_IsAuthentic codec env now expected token claims = (there, back)
  where
    there :
        verify_execution_token codec env now expected token ≡ ok claims
        → IsAuthentic codec env now expected token claims
    there h =
        let ((p, s), parts, signed) = >>=-eq-ok (two_parts (split_on b'.' token)) (λ _. _) h in
        let (split, some_payload, some_signature) = two_parts-eq (split_on b'.' token) p s parts in
        record {
          payload_b64 = p;
          signature_b64 = s;
          split = split;
          payload_given = some_payload;
          signature_given = some_signature;
          signs = verify_signed-IsSigned codec env (unix now) expected p s claims signed;
        }

    back :
        IsAuthentic codec env now expected token claims
        → verify_execution_token codec env now expected token ≡ ok claims
    back a =
        rw (a.split, a.payload_given, a.signature_given)
          (IsSigned-verify_signed codec env (unix now) expected a.payload_b64 a.signature_b64 claims
            a.signs)

-- The claims are those of the token, whoever verifies it and when.
pub same_token-same_claims :
    (codec : Codec) (env env' : Environment) (now now' : Datetime) (expected expected' : Expected)
    (token : String) (claims claims' : Claims)
    → verify_execution_token codec env now expected token ≡ ok claims
    → verify_execution_token codec env' now' expected' token ≡ ok claims'
    → claims ≡ claims'
same_token-same_claims codec env env' now now' expected expected' token claims claims' h k =
    let a = (verified-iff_IsAuthentic codec env now expected token claims).0 h in
    let b = (verified-iff_IsAuthentic codec env' now' expected' token claims').0 k in
    let split = a.split in
    let split' = b.split in
    let decoded = a.signs.decoded in
    let decoded' = b.signs.decoded in
    let key = a.signs.key in
    let key' = b.signs.key in let read = a.signs.read in let read' = b.signs.read in cc
