-- ===== src/Replay.antt =====
-- services/execution_replay_store.py: the identifiers of the execution tokens that were used.
-- The table is the list of its rows, in the order of their insertion. A call reads the clock and
-- takes the lock twice, for the purge and for the insertion; it is one step here, with a field of
-- `Clock` for each reading. Times in seconds since 1970 are natural numbers.
pub mod Once
use night_ledger.Prelude.{
  ℕ, String, Bool, true, false, not, List, [], ◌∷◌, ◌++◌, filter, any, ltb, str_eq, if◌then◌else◌,
}

-- A row of `used_execution_tokens`.
pub record UsedToken : Type 0 where
  pub jti : String
  pub exp_unix : ℕ
  pub used_at : String

abbrev pub UsedTokens : Type 0
UsedTokens = List UsedToken

-- The two readings of the clock: the seconds since 1970 at the purge, and the text of the instant at
-- the insertion.
pub record Clock : Type 0 where
  pub unix : ℕ
  pub iso : String

-- `_initialize` of a new file
abbrev pub no_tokens : UsedTokens
no_tokens = []

unfoldable pub purge_expired : ℕ → UsedTokens → UsedTokens
purge_expired now_unix used = filter (λ r. not (ltb r.exp_unix now_unix)) used

abbrev pub has_jti : String → UsedToken → Bool
has_jti jti r = str_eq r.jti jti

-- `INSERT OR IGNORE` under the primary key `jti`, and whether it wrote a row.
unfoldable pub insert_or_ignore : UsedToken → UsedTokens → UsedTokens × Bool
insert_or_ignore row used =
    if any (has_jti row.jti) used then (used, false) else (used ++ row ∷ [], true)

unfoldable pub consume_once : Clock → String → ℕ → UsedTokens → UsedTokens × Bool
unfolding purge_expired insert_or_ignore
consume_once now jti exp_unix used =
    insert_or_ignore (record { jti = jti; exp_unix = exp_unix; used_at = now.iso })
      (purge_expired now.unix used)
