-- ===== src/Command/Job.antt =====
-- The job that only migrates (cmd/api/main.go): `--migrate --api=false --worker=false`.
use bankstmt_analyzer.Prelude.{
  suc, ◌≡◌, refl, subst, ap, ap₂, ◌∙◌, true, false, List, [], ◌∷◌, ◌++◌, map, arith,
}
use bankstmt_analyzer.Go.{Result, ok, err}
use bankstmt_analyzer.Go.Monad.{continue, pure}
use bankstmt_analyzer.Config.{Config, load}
use bankstmt_analyzer.Db.Pool.{Pools, new_pool, close_pool}
use bankstmt_analyzer.Db.Pool.Redacted.{Counts, new_pool-Counts}
use bankstmt_analyzer.Migrate.{up, up-closes}
use bankstmt_analyzer.Command.{
  Machine, Process, migrating, no_pool_config, migrate, with_pool, start, run,
}
use bankstmt_analyzer.Command.Flags.{Options, Flag, parse_flags}
use bankstmt_analyzer.Command.Flags.Last.{
  Setting, print, last, value_or, takes_role, parse_flags-last,
}

-- The options of the job that only migrates.
abbrev pub migrate_only : Options
migrate_only = record { run_api = false; run_worker = false; migrate = true; show_version = false }

then_nothing :
    (r : Result (Unit {0})) (p : Process) → continue r (λ _. pure {S = Process} tt) p ≡ (r, p)
then_nothing (ok _) p = refl
then_nothing (err e) p = refl

idle-with_pool :
    (m : Machine) (cfg : Config) (p : Process)
    → with_pool m migrate_only cfg p ≡ (
      (up true m.locker m.provider m.applied p.handles).0,
      record p {
        handles = (up true m.locker m.provider m.applied p.handles).1;
        events = p.events ++ migrating ∷ [];
      },
    )
unfolding with_pool migrate
idle-with_pool m cfg p =
    let answer = up true m.locker m.provider m.applied p.handles in
    then_nothing answer.0 (record p { handles = answer.1; events = p.events ++ migrating ∷ [] })

idle-start :
    (m : Machine) (cfg : Config) (p : Process) (n : Pools)
    → load m.environment ≡ ok cfg
    → new_pool m.parse_dsn m.create_pool m.ping cfg.database_url no_pool_config p.pools ≡ (ok tt, n)
    → start m migrate_only p ≡ (
      (up true m.locker m.provider m.applied p.handles).0,
      record p {
        pools = close_pool n;
        handles = (up true m.locker m.provider m.applied p.handles).1;
        events = p.events ++ migrating ∷ [];
      },
    )
unfolding start
idle-start m cfg p n loaded answered =
    rw (loaded, answered)
      (ap (λ a. (a.0, record a.1 { pools = close_pool a.1.pools }))
        (idle-with_pool m cfg (record p { pools = n })))

parsed-migrate_only :
    (ss : List Setting)
    → takes_role Flag.api ss ≡ false
    → takes_role Flag.worker ss ≡ false
    → value_or false (last Flag.migrate ss) ≡ true
    → value_or false (last Flag.version ss) ≡ false
    → parse_flags (map print ss) ≡ ok migrate_only
parsed-migrate_only ss no_api no_worker migrates no_version = parse_flags-last ss ∙ ground arith

-- A process whose command line, in whatever order and however often it sets the flags, asks for neither role, for
-- the migrations and not for the version, with an accepted configuration and a database that answers, returns what
-- applying the migrations returns. Applying them is all that it has done: no role is started, no blob store is
-- opened, and no connection or handle is left open.
pub run-migrate_only :
    (m : Machine) (ss : List Setting) (cfg : Config) (p : Process) (n : Pools)
    → m.args ≡ map print ss
    → takes_role Flag.api ss ≡ false
    → takes_role Flag.worker ss ≡ false
    → value_or false (last Flag.migrate ss) ≡ true
    → value_or false (last Flag.version ss) ≡ false
    → load m.environment ≡ ok cfg
    → new_pool m.parse_dsn m.create_pool m.ping cfg.database_url no_pool_config p.pools ≡ (ok tt, n)
    → run m p ≡ (
      (up true m.locker m.provider m.applied p.handles).0,
      record p { events = p.events ++ migrating ∷ [] },
    )
unfolding run
run-migrate_only m ss cfg p n args no_api no_worker migrates no_version loaded answered =
    let opened : n ≡ suc p.pools =
      subst (Counts p.pools) answered (
        new_pool-Counts m.parse_dsn m.create_pool m.ping cfg.database_url no_pool_config p.pools) in
    let parsed : parse_flags m.args ≡ ok migrate_only =
      ap parse_flags args ∙ parsed-migrate_only ss no_api no_worker migrates no_version in
    let closed : close_pool n ≡ p.pools = omega (arith, opened) in
    rw parsed (
      idle-start m cfg p n loaded answered
      ∙ ap₂
          (λ a b. (
            (up true m.locker m.provider m.applied p.handles).0,
            record p { pools = a; handles = b; events = p.events ++ migrating ∷ [] },
          ))
          closed (up-closes true m.locker m.provider m.applied p.handles))
