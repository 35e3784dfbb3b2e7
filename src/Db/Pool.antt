-- ===== src/Db/Pool.antt =====
-- internal/db/pool.go and redact.go: connecting to the database. The pool's library parses the connection string,
-- creates a pool and pings the server: what it answers are arguments. Its clean-up of a pool is counted.
pub mod Redacted
use bankstmt_analyzer.Prelude.{
  ℕ, suc, ◌+◌, ◌-◌, ◌*◌, ◌^◌, Bool, not, List, [], ◌∷◌, ◌++◌, if◌then◌else◌,
}
use bankstmt_analyzer.Text.{Bytes, codes, is_empty, contains, replace_all}
use bankstmt_analyzer.Go.{Error, plain, wrap, error_text, Result, ok, err}
use bankstmt_analyzer.Go.Integers.{ℤ, pos, below}

-- `PoolConfig`, and the fields of the library's configuration that it sets. Durations are in nanoseconds.
pub record PoolConfig : Type 0 where
  pub max_conns : ℤ
  pub min_conns : ℤ
  pub max_conn_lifetime : ℤ
  pub max_conn_idle_time : ℤ
  pub health_check_period : ℤ
  pub connect_timeout : ℤ

abbrev is_positive : ℤ → Bool
is_positive n = not (below n 1)

abbrev pub default_timeout : ℤ
default_timeout = pos (10 * 10 ^ 9)

abbrev choose : ℤ → ℤ → ℤ
choose wanted given = if is_positive wanted then wanted else given

-- `applyDefaults`: the library's configuration with the values that are set.
unfoldable pub apply_defaults : PoolConfig → PoolConfig → PoolConfig
apply_defaults pool cfg =
    let timeout = choose cfg.connect_timeout pool.connect_timeout in
    record {
      max_conns = choose cfg.max_conns pool.max_conns;
      min_conns = choose cfg.min_conns pool.min_conns;
      max_conn_lifetime = choose cfg.max_conn_lifetime pool.max_conn_lifetime;
      max_conn_idle_time = choose cfg.max_conn_idle_time pool.max_conn_idle_time;
      health_check_period = choose cfg.health_check_period pool.health_check_period;
      connect_timeout = if is_positive timeout then timeout else default_timeout;
    }

abbrev pub redacted_dsn : Bytes
redacted_dsn = codes "[redacted DATABASE_URL]"

-- `redactDSN` of an error
unfoldable pub redact_dsn : Error → Bytes → Error
unfolding contains replace_all error_text
redact_dsn e dsn =
    if is_empty dsn
    then e
    else if not (contains (error_text e) dsn)
    then e
    else plain (replace_all (error_text e) dsn redacted_dsn)

-- The pools that are open.
abbrev pub Pools : Type 0
Pools = ℕ

-- `pool.Close`
abbrev pub close_pool : Pools → Pools
close_pool n = n - 1

module _ (parse : Bytes → Result PoolConfig) (create ping : PoolConfig → Result (Unit {0}))
    (dsn : Bytes) (cfg : PoolConfig) where
  pinged : Result (Unit {0}) → Pools → Result (Unit {0}) × Pools
  unfolding redact_dsn
  pinged (err e) n = (err (wrap (codes "db: ping") (redact_dsn e dsn)), close_pool n)
  pinged (ok _) n = (ok tt, n)

  created : PoolConfig → Result (Unit {0}) → Pools → Result (Unit {0}) × Pools
  unfolding pinged redact_dsn
  created pool (err e) n = (err (wrap (codes "db: create pool") (redact_dsn e dsn)), n)
  created pool (ok _) n = pinged (ping pool) (suc n)

  parsed : Result PoolConfig → Pools → Result (Unit {0}) × Pools
  unfolding created redact_dsn apply_defaults
  parsed (err e) n = (err (wrap (codes "db: parse DATABASE_URL") (redact_dsn e dsn)), n)
  parsed (ok pool) n =
      let settings = apply_defaults pool cfg in created settings (create settings) n

  -- `NewPool`
  unfoldable pub new_pool : Pools → Result (Unit {0}) × Pools
  unfolding parsed
  new_pool n = parsed (parse dsn) n
