-- ===== src/Db/Pool/Redacted.antt =====
-- The connection string, with its password, in the errors of `NewPool` (internal/db/pool.go), and the pool that a
-- failed start leaves.
use bankstmt_analyzer.Prelude.{
  suc, ◌≡◌, ◌≢◌, refl, subst, false, List, [], ◌∷◌, ◌++◌, arith, inl, inr, Bool-cases, All,
  append_assoc,
}
use bankstmt_analyzer.Text.{Bytes, codes, contains, replace_all}
use bankstmt_analyzer.Text.Search.{Lacks, contains-append_sep, contains-replace_from}
use bankstmt_analyzer.Go.{Error, wrap, error_text, Result, ok, err}
use bankstmt_analyzer.Db.Pool.{
  PoolConfig, Pools, redact_dsn, apply_defaults, pinged, created, parsed, new_pool,
}

-- The words that the program writes around an error.
abbrev pub own_words : List Bytes
own_words =
    codes "redacted DATABASE_URL"
    ∷ codes "db: parse DATABASE_URL:"
    ∷ codes "db: create pool:"
    ∷ codes "db: ping:"
    ∷ []

-- A connection string without a space or a bracket that is no part of these words, as every URL with a host is.
pub record IsDsn (dsn : Bytes) : Type 0 where
  pub some : dsn ≢ []
  pub no_left : Lacks b'[' dsn
  pub no_right : Lacks b']' dsn
  pub no_space : Lacks b' ' dsn
  pub no_word : All (λ w. contains w dsn ≡ false) own_words

redact_dsn-hides :
    (e : Error) (dsn : Bytes) → IsDsn dsn → contains (error_text (redact_dsn e dsn)) dsn ≡ false
unfolding redact_dsn replace_all
redact_dsn-hides e [] is = absurd (is.some refl)
redact_dsn-hides e (c ∷ k) is = elim (Bool-cases (contains (error_text e) (c ∷ k))) [
  | inr absent ↦ rw absent absent
  | inl there ↦ rw there (
      contains-replace_from b'[' b']' (codes "redacted DATABASE_URL") (c ∷ k) is.no_left is.no_right
        is.no_word.0 is.some (c ∷ k) 0 (error_text e) (inr refl))
]

wrap-hides :
    (words : Bytes) (e : Error) (dsn : Bytes)
    → Lacks b' ' dsn
    → dsn ≢ []
    → contains (words ++ codes ":") dsn ≡ false
    → contains (error_text e) dsn ≡ false
    → contains (error_text (wrap words e)) dsn ≡ false
unfolding error_text
wrap-hides words e dsn no_space some absent h =
    subst (λ t. contains t dsn ≡ false) (append_assoc words (codes ":") (b' ' ∷ error_text e))
      (rw (contains-append_sep b' ' (words ++ codes ":") (error_text e) dsn no_space some, absent)
        h)

-- No error tells the connection string, and a pool is left open if and only if there is no error.
abbrev pub Leaves : Bytes → Pools → Result (Unit {0}) × Pools → Type 0
Leaves dsn n (ok _, after) = after ≡ suc n
Leaves dsn n (err e, after) = (contains (error_text e) dsn ≡ false) × (after ≡ n)

failed-hides :
    (words : Bytes) (e : Error) (dsn : Bytes)
    → IsDsn dsn
    → contains (words ++ codes ":") dsn ≡ false
    → contains (error_text (wrap words (redact_dsn e dsn))) dsn ≡ false
failed-hides words e dsn is absent =
    wrap-hides words (redact_dsn e dsn) dsn is.no_space is.some absent (redact_dsn-hides e dsn is)

module _ (parse : Bytes → Result PoolConfig) (create ping : PoolConfig → Result (Unit {0}))
    (dsn : Bytes) (cfg : PoolConfig) (is : IsDsn dsn) (n : Pools) where
  pinged-Leaves :
      (r : Result (Unit {0})) → Leaves dsn n (pinged parse create ping dsn cfg r (suc n))
  unfolding pinged
  pinged-Leaves (err e) = (failed-hides (codes "db: ping") e dsn is is.no_word.1.1.1.0, omega arith)
  pinged-Leaves (ok _) = refl

  created-Leaves :
      (pool : PoolConfig) (r : Result (Unit {0}))
      → Leaves dsn n (created parse create ping dsn cfg pool r n)
  unfolding created
  created-Leaves pool (err e) =
      (failed-hides (codes "db: create pool") e dsn is is.no_word.1.1.0, refl)
  created-Leaves pool (ok _) = pinged-Leaves (ping pool)

  parsed-Leaves : (r : Result PoolConfig) → Leaves dsn n (parsed parse create ping dsn cfg r n)
  unfolding parsed
  parsed-Leaves (err e) =
      (failed-hides (codes "db: parse DATABASE_URL") e dsn is is.no_word.1.0, refl)
  parsed-Leaves (ok pool) =
      created-Leaves (apply_defaults pool cfg) (create (apply_defaults pool cfg))

  -- Whatever the pool's library answers: for a connection string as `IsDsn` describes it an error of `NewPool` does not tell
  -- the string, and leaves as many pools open as before; without an error one more pool is open.
  pub new_pool-Leaves : Leaves dsn n (new_pool parse create ping dsn cfg n)
  unfolding new_pool
  new_pool-Leaves = parsed-Leaves (parse dsn)

-- A pool is left open if and only if there is no error, whatever the connection string.
abbrev pub Counts : Pools → Result (Unit {0}) × Pools → Type 0
Counts n (ok _, after) = after ≡ suc n
Counts n (err e, after) = after ≡ n

module _ (parse : Bytes → Result PoolConfig) (create ping : PoolConfig → Result (Unit {0}))
    (dsn : Bytes) (cfg : PoolConfig) (n : Pools) where
  pinged-Counts : (r : Result (Unit {0})) → Counts n (pinged parse create ping dsn cfg r (suc n))
  unfolding pinged
  pinged-Counts (err e) = omega arith
  pinged-Counts (ok _) = refl

  created-Counts :
      (pool : PoolConfig) (r : Result (Unit {0}))
      → Counts n (created parse create ping dsn cfg pool r n)
  unfolding created
  created-Counts pool (err e) = refl
  created-Counts pool (ok _) = pinged-Counts (ping pool)

  parsed-Counts : (r : Result PoolConfig) → Counts n (parsed parse create ping dsn cfg r n)
  unfolding parsed
  parsed-Counts (err e) = refl
  parsed-Counts (ok pool) =
      created-Counts (apply_defaults pool cfg) (create (apply_defaults pool cfg))

  pub new_pool-Counts : Counts n (new_pool parse create ping dsn cfg n)
  unfolding new_pool
  new_pool-Counts = parsed-Counts (parse dsn)
