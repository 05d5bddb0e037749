-- ===== src/Replay/Once.antt =====
-- execution_replay_store.py: a token is consumed at most once before it expires.
use night_ledger.Prelude.{
  ℕ, String, Bool, true, false, ◌&&◌, ◌||◌, ◌≡◌, refl, subst, sym, ◌∙◌, List, [], ◌∷◌, filter, any,
  leb, str_eq, arith, any-append, All, Bool-cases, inl, inr, eq_refl,
}
use night_ledger.Replay.{
  UsedToken, UsedTokens, Clock, consume_once, purge_expired, insert_or_ignore, has_jti,
}

-- A call of `consume_once`.
pub record Request : Type 0 where
  pub clock : Clock
  pub jti : String
  pub exp_unix : ℕ

unfoldable pub serve : UsedTokens → List Request → UsedTokens
serve used [] = used
serve used (r ∷ rs) = serve (consume_once r.clock r.jti r.exp_unix used).0 rs

abbrev holds : String → ℕ → UsedToken → Bool
holds jti until r = str_eq r.jti jti && leb until r.exp_unix

holds-purge :
    (jti : String) (until now : ℕ) (used : UsedTokens)
    → leb now until ≡ true
    → any (holds jti until) used ≡ true
    → any (holds jti until) (purge_expired now used) ≡ true
unfolding purge_expired filter any
holds-purge jti until now [] le h = h
holds-purge jti until now (r ∷ rs) le h = ground (arith, holds-purge jti until now rs le)

holds-insert :
    (jti : String) (until : ℕ) (row : UsedToken) (used : UsedTokens)
    → any (holds jti until) used ≡ true
    → any (holds jti until) (insert_or_ignore row used).0 ≡ true
unfolding insert_or_ignore
holds-insert jti until row used h = elim (Bool-cases (any (has_jti row.jti) used)) [
  | inl e ↦ rw e h
  | inr e ↦ rw (e) (any-append (holds jti until) used (row ∷ []) ∙ rw h refl)
]

holds-inserted :
    (row : UsedToken) (used : UsedTokens)
    → (insert_or_ignore row used).1 ≡ true
    → any (holds row.jti row.exp_unix) (insert_or_ignore row used).0 ≡ true
unfolding insert_or_ignore any
holds-inserted row used h = elim (Bool-cases (any (has_jti row.jti) used)) [
  | inl e ↦ absurd (ground arith)
  | inr e ↦ rw (e) (
      any-append (holds row.jti row.exp_unix) used (row ∷ [])
      ∙ last_true _ _ (ground (arith, eq_refl row.jti)))
]
  where
    last_true : (a b : Bool) → b ≡ true → (a || (b || false)) ≡ true
    last_true a b h = ground arith

insert-used :
    (row : UsedToken) (used : UsedTokens)
    → any (has_jti row.jti) used ≡ true
    → (insert_or_ignore row used).1 ≡ false
unfolding insert_or_ignore
insert-used row used h = rw h refl

holds-serve :
    (jti : String) (until : ℕ) (rs : List Request) (used : UsedTokens)
    → All (λ r. leb r.clock.unix until ≡ true) rs
    → any (holds jti until) used ≡ true
    → any (holds jti until) (serve used rs) ≡ true
unfolding serve consume_once
holds-serve jti until [] used le h = h
holds-serve jti until (r ∷ rs) used le h =
    holds-serve jti until rs _ le.1
      (holds-insert jti until _ _ (holds-purge jti until r.clock.unix used le.0 h))

holds-has_jti :
    (jti : String) (until : ℕ) (used : UsedTokens)
    → any (holds jti until) used ≡ true
    → any (has_jti jti) used ≡ true
unfolding any
holds-has_jti jti until [] h = h
holds-has_jti jti until (r ∷ rs) h = ground (arith, holds-has_jti jti until rs)

-- Once a token identifier was consumed, no call consumes it again up to its expiry, whatever other
-- calls up to then come between.
pub consume_once-once :
    (used : UsedTokens) (first : Request) (between : List Request) (again : Request)
    → (consume_once first.clock first.jti first.exp_unix used).1 ≡ true
    → again.jti ≡ first.jti
    → All (λ r. leb r.clock.unix first.exp_unix ≡ true) between
    → leb again.clock.unix first.exp_unix ≡ true
    → (consume_once again.clock again.jti again.exp_unix
        (serve (consume_once first.clock first.jti first.exp_unix used).0 between)).1
      ≡ false
unfolding consume_once
consume_once-once used first between again won same le last = insert-used _ _ (
    subst (λ j. any (has_jti j) (purge_expired again.clock.unix left) ≡ true) (sym same)
      (holds-has_jti first.jti first.exp_unix _ (
        holds-purge first.jti first.exp_unix again.clock.unix left last
          (holds-serve first.jti first.exp_unix between _ le (holds-inserted _ _ won)))))
  where
    left : UsedTokens
    left = serve (consume_once first.clock first.jti first.exp_unix used).0 between
