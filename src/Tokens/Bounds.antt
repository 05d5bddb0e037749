-- ===== src/Tokens/Bounds.antt =====
-- execution_token_service.py: the length of the secrets.
use night_ledger.Prelude.{
  ◌≤◌, String, Bool, true, false, ◌||◌, not, ◌≡◌, refl, ap, sym, subst, ◌∙◌, Option, none, some,
  List, [], ◌∷◌, arith, str_eq, if◌then◌else◌, Bool-cases, inl, inr,
}
use night_ledger.Prelude.Dict.{Dict, lookup, insert, lookup-insert}
use night_ledger.Prelude.Text.{strip, is_blank, char_count, has_char, split_on, split_once}
use night_ledger.Prelude.Text.Blank.{is_blank-strip}
use night_ledger.Errors.{Result, ok, >>=-eq-ok, ◌>>◌, ok-injective}
use night_ledger.Tokens.{Environment, misconfigured, validate_secret_strength}
use night_ledger.Tokens.Keys.{
  add_pair, add_pairs, usable, given, key_map_of, legacy_key_map,
  configured_execution_token_key_map, inline_kid, resolve_signing_secret,
  resolve_verification_secret, known_key,
}
use night_ledger.Tokens.RoundTrip.{signing-verification}

-- A secret of at least 32 characters.
abbrev pub IsStrong : String → Type 0
IsStrong secret = 32 ≤ char_count secret

abbrev AreStrong : Dict String → Type 0
AreStrong keys = (kid secret : String) → lookup kid keys ≡ some secret → IsStrong secret

validated : (secret : String) → validate_secret_strength secret ≡ ok tt → IsStrong secret
unfolding validate_secret_strength
validated secret h = ground arith

insert-AreStrong :
    (kid secret : String) (keys : Dict String)
    → IsStrong secret
    → AreStrong keys
    → AreStrong (insert kid secret keys)
insert-AreStrong kid secret keys long strong asked found h = elim (Bool-cases (str_eq kid asked)) [
  | inl e ↦
      subst IsStrong (some-inj (sym (lookup-insert kid asked secret keys ∙ rw e refl) ∙ h)) long
  | inr e ↦ strong asked found (sym (lookup-insert kid asked secret keys ∙ rw e refl) ∙ h)
]
  where
    some-inj : {a b : String} → some a ≡ some b → a ≡ b
    some-inj e = cc

abbrev or_misconfigured {ℓ} : {A : Type ℓ} → Bool → String → Result A → Result A
or_misconfigured failed message rest = if failed then misconfigured message else rest

-- A test that raises was false where something is returned.
past :
    {A : Type 0} (failed : Bool) (message : String) {rest : Result A} {last : A}
    → or_misconfigured failed message rest ≡ ok last
    → rest ≡ ok last
past true message h = cc
past false message h = h

stored-AreStrong :
    (kid secret : String) (keys more : Dict String)
    → AreStrong keys
    → (validate_secret_strength secret >> ok (insert kid secret keys)) ≡ ok more
    → AreStrong more
stored-AreStrong kid secret keys more strong h =
    let (u, valid, e) = >>=-eq-ok (validate_secret_strength secret) (λ _. _) h in
    subst AreStrong (ok-injective e)
      (insert-AreStrong kid secret keys (validated secret valid) strong)

add_pair-AreStrong :
    (raw : String) (keys more : Dict String)
    → AreStrong keys
    → add_pair raw keys ≡ ok more
    → AreStrong more
unfolding add_pair
add_pair-AreStrong raw keys more strong h =
    let pair = strip raw in
    let kid = strip (split_once b':' pair).0 in
    let secret = strip (split_once b':' pair).1 in
    stored-AreStrong kid secret keys more strong (
      past (str_eq kid "" || str_eq secret "")
        "NIGHTLEDGER_EXECUTION_TOKEN_KEYS contains empty kid or secret"
        (past (str_eq pair "" || not (has_char b':' pair))
          "NIGHTLEDGER_EXECUTION_TOKEN_KEYS must use 'kid:secret' comma-separated format" h))

add_pairs-AreStrong :
    (raws : List String) (keys more : Dict String)
    → AreStrong keys
    → add_pairs raws keys ≡ ok more
    → AreStrong more
unfolding add_pairs
add_pairs-AreStrong [] keys more strong h = subst AreStrong (ok-injective h) strong
add_pairs-AreStrong (raw ∷ raws) keys more strong h =
    let (next, added, rest) = >>=-eq-ok (add_pair raw keys) (λ _. _) h in
    add_pairs-AreStrong raws next more (add_pair-AreStrong raw keys next strong added) rest

no_keys-AreStrong : AreStrong []
unfolding lookup
no_keys-AreStrong kid secret h = cc

usable-eq : (keys more : Dict String) → usable keys ≡ ok more → keys ≡ more
usable-eq [] more h = cc
usable-eq (entry ∷ keys) more h = ok-injective h

legacy-AreStrong :
    (secret : Option String) (keys : Dict String) → legacy_key_map secret ≡ ok keys → AreStrong keys
legacy-AreStrong none keys h = cc
legacy-AreStrong (some secret) keys h =
    stored-AreStrong "v1" (strip secret) [] keys no_keys-AreStrong (unfold insert in h)

key_map-AreStrong :
    (env : Environment) (keys : Dict String)
    → configured_execution_token_key_map env ≡ ok keys
    → AreStrong keys
unfolding configured_execution_token_key_map
key_map-AreStrong env keys h = by_source (given env.keys) (given env.secret) h
  where
    by_source :
        (listed legacy : Option String) → key_map_of listed legacy ≡ ok keys → AreStrong keys
    by_source none legacy h = legacy-AreStrong legacy keys h
    by_source (some listed) legacy h =
        let (found, added, e) = >>=-eq-ok (add_pairs (split_on b',' listed) []) (λ _. _) h in
        subst AreStrong (usable-eq found keys e)
          (add_pairs-AreStrong (split_on b',' listed) [] found no_keys-AreStrong added)

known_key-eq :
    (found : Option String) (secret : String) → known_key found ≡ ok secret → found ≡ some secret
known_key-eq none secret h = cc
known_key-eq (some s) secret h = ground arith

-- A secret that a token is verified with, when no map of keys is passed, has at least 32
-- characters, whether it is passed or configured.
pub verification_secret-IsStrong :
    (env : Environment) (passed : Option String) (kid secret : String)
    → resolve_verification_secret env passed kid none ≡ ok secret
    → IsStrong secret
unfolding resolve_verification_secret
verification_secret-IsStrong env (some given_secret) kid secret h =
    let (u, valid, e) = >>=-eq-ok (validate_secret_strength given_secret) (λ _. _) h in
    subst IsStrong (ok-injective e) (validated given_secret valid)
verification_secret-IsStrong env none kid secret h =
    let (keys, configured, e) = >>=-eq-ok (configured_execution_token_key_map env) (λ _. _) h in
    key_map-AreStrong env keys configured kid secret (known_key-eq (lookup kid keys) secret e)

inline_key :
    (name long kid secret : String)
    → or_misconfigured {A = String × String}
        (is_blank name)
        "Execution token kid must be non-empty"
        (ok (strip name, long))
      ≡ ok (kid, secret)
    → (strip name ≡ kid) × (long ≡ secret) × (is_blank name ≡ false)
inline_key name long kid secret h = by_test (is_blank name) refl h
  where
    by_test :
        (b : Bool)
        → is_blank name ≡ b
        → or_misconfigured {A = String × String} b "Execution token kid must be non-empty"
            (ok (strip name, long))
          ≡ ok (kid, secret)
        → (strip name ≡ kid) × (long ≡ secret) × (is_blank name ≡ false)
    by_test true e h = cc
    by_test false e h = (ap (λ p. p.0) (ok-injective h), ap (λ p. p.1) (ok-injective h), e)

-- A token is signed with a secret of at least 32 characters under a key identifier that is not
-- blank, whether the secret is passed or configured.
pub signing_secret-IsStrong :
    (env : Environment) (passed asked_kid : Option String) (kid secret : String)
    → resolve_signing_secret env passed asked_kid ≡ ok (kid, secret)
    → IsStrong secret × (is_blank kid ≡ false)
unfolding resolve_signing_secret
signing_secret-IsStrong env (some given_secret) asked_kid kid secret h =
    let (u, valid, e) = >>=-eq-ok (validate_secret_strength (strip given_secret)) (λ _. _) h in
    let (same_kid, same_secret, given) =
      inline_key (inline_kid asked_kid) (strip given_secret) kid secret e in
    (
      subst IsStrong same_secret (validated (strip given_secret) valid),
      ap is_blank (sym same_kid) ∙ is_blank-strip (inline_kid asked_kid) ∙ given,
    )
signing_secret-IsStrong env none asked_kid kid secret h =
    let (known, named) = signing-verification env asked_kid kid secret h in
    (verification_secret-IsStrong env none kid secret known, named)
