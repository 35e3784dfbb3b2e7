-- ===== src/Tests/Command.antt =====
-- Concrete runs of the command: its flags, the connection to the database, and whole processes.
use bankstmt_analyzer.Prelude.{◌≡◌, refl, true, false, List, [], ◌∷◌, map, arith}
use mathlib.Core.List.{cons-ne-nil}
use bankstmt_analyzer.Text.{Bytes, codes, contains}
use bankstmt_analyzer.Go.{plain, wrap, Result, ok, err}
use bankstmt_analyzer.Config.{load}
use bankstmt_analyzer.Db.Pool.{PoolConfig, new_pool}
use bankstmt_analyzer.Db.Pool.Redacted.{Leaves, IsDsn, new_pool-Leaves}
use bankstmt_analyzer.Migrate.{up}
use bankstmt_analyzer.Command.{
  Machine, Process, server_closed, migrating, storage_ready, serving, working, no_pool_config, run,
}
use bankstmt_analyzer.Command.Flags.{Flag, parse_flags}
use bankstmt_analyzer.Command.Flags.Last.{Setting, print, parse_flags-last}
use bankstmt_analyzer.Command.Ends.{run-closes}
use bankstmt_analyzer.Command.Job.{run-migrate_only}
use bankstmt_analyzer.Pipeline.Start.{drained}
use bankstmt_analyzer.Tests.Config.{config}

-- `--migrate --api=true -api=false --worker=false`
abbrev job : List Setting
job =
    record { flag = Flag.migrate; value = true; two_dashes = true; bare = true }
    ∷ record { flag = Flag.api; value = true; two_dashes = true; bare = false }
    ∷ record { flag = Flag.api; value = false; two_dashes = false; bare = false }
    ∷ record { flag = Flag.worker; value = false; two_dashes = true; bare = false }
    ∷ []

parse_flags-last_example :
    parse_flags (map print job)
    ≡ ok (record { run_api = false; run_worker = false; migrate = true; show_version = false })
parse_flags-last_example = parse_flags-last job

-- Without a flag the process takes both roles; a flag that there is not is an error.
both_roles :
    parse_flags []
    ≡ ok (record { run_api = true; run_worker = true; migrate = false; show_version = false })
unfolding parse_flags
both_roles = refl

no_such_flag :
    parse_flags (codes "--port=80" ∷ [])
    ≡ err (wrap (codes "parse flags") (plain (codes "flag provided but not defined: -port")))
unfolding parse_flags
no_such_flag = refl

abbrev dsn : Bytes
dsn = codes "postgres://u:pw@db/bank"

abbrev refuse : PoolConfig → Result (Unit {0})
refuse _ = err (plain (codes "cannot connect to postgres://u:pw@db/bank"))

dsn-IsDsn : IsDsn dsn
unfolding contains
dsn-IsDsn = record {
  some = cons-ne-nil _ _;
  no_left = omega arith;
  no_right = omega arith;
  no_space = omega arith;
  no_word = (refl, (refl, (refl, (refl, tt))));
}

new_pool-Leaves_example :
    Leaves dsn 0 (new_pool (λ _. ok no_pool_config) (λ _. ok tt) refuse dsn no_pool_config 0)
new_pool-Leaves_example =
    new_pool-Leaves (λ _. ok no_pool_config) (λ _. ok tt) refuse dsn no_pool_config dsn-IsDsn 0

pinged_in_vain :
    new_pool (λ _. ok no_pool_config) (λ _. ok tt) refuse dsn no_pool_config 0
    ≡ (err (wrap (codes "db: ping") (plain (codes "cannot connect to [redacted DATABASE_URL]"))), 0)
unfolding new_pool
pinged_in_vain = refl

-- A machine on which everything works.
abbrev machine : List Bytes → Machine
machine args = record {
  args = args;
  environment = ok config;
  parse_dsn = λ _. ok no_pool_config;
  create_pool = λ _. ok tt;
  ping = λ _. ok tt;
  locker = ok tt;
  provider = ok tt;
  applied = ok [];
  absolute = ok (codes "/data");
  made = ok tt;
  loaded = ok tt;
  head_bucket = λ _. ok tt;
  url_path = λ _. ok [];
  system_prompt = codes "You read bank statements.";
  served = server_closed;
  shut_down = ok tt;
  worked = drained;
  wait = λ _. ok tt;
}

abbrev fresh : Process
fresh = record { pools = 0; handles = 0; events = [] }

both_started :
    run (machine []) fresh
    ≡ (ok tt, record fresh { events = storage_ready ∷ serving ∷ working ∷ [] })
unfolding run
both_started = refl

run-closes_example :
    ((run (machine (codes "--migrate" ∷ [])) fresh).1.pools ≡ 0)
    × ((run (machine (codes "--migrate" ∷ [])) fresh).1.handles ≡ 0)
run-closes_example = run-closes (machine (codes "--migrate" ∷ [])) fresh

run-migrate_only_example :
    run (machine (map print job)) fresh
    ≡ ((up true (ok tt) (ok tt) (ok []) 0).0, record fresh { events = migrating ∷ [] })
unfolding load new_pool
run-migrate_only_example =
    run-migrate_only (machine (map print job)) job config fresh 1 refl refl refl refl refl refl refl
