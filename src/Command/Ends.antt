-- ===== src/Command/Ends.antt =====
-- What a process of cmd/api/main.go still holds when it ends.
use bankstmt_analyzer.Prelude.{
  suc, ◌≡◌, refl, ◌∙◌, Bool, true, false, not, ◌&&◌, ◌||◌, arith, if◌then◌else◌,
}
use bankstmt_analyzer.Go.{Result, ok, err}
use bankstmt_analyzer.Go.Monad.{Exec, lift, pure, ◌>>=◌, ◌>>◌}
use bankstmt_analyzer.Go.Keeps.{Keeps, lift-Keeps, >>=-Keeps}
use bankstmt_analyzer.Config.{Config, load}
use bankstmt_analyzer.Db.Pool.{Pools, new_pool}
use bankstmt_analyzer.Db.Pool.Redacted.{Counts, new_pool-Counts}
use bankstmt_analyzer.Migrate.{Handles, up-closes}
use bankstmt_analyzer.Command.{
  Machine, Process, Event, printed_version, storage_ready, serving, working, note, defer_close,
  no_pool_config, migrate, start_api, returns, run_roles, with_pool, connect, start, run,
}
use bankstmt_analyzer.Command.Parts.{forget, new_blob_store, build_pipeline}
use bankstmt_analyzer.Command.Flags.{Options, parse_flags}

module _ (m : Machine) (pools : Pools) (handles : Handles) where
  -- The pools and the handles that are open.
  abbrev Holds : Process → Type 0
  Holds p = (p.pools ≡ pools) × (p.handles ≡ handles)

  note-Keeps : (e : Event) → Keeps Holds (note e)
  note-Keeps e = record { after = λ p h. h }

  if-Keeps :
      {q r : Exec Process (Unit {0})} (b : Bool)
      → Keeps Holds q
      → Keeps Holds r
      → Keeps Holds (if b then q else r)
  if-Keeps true h k = h
  if-Keeps false h k = k

  pure-Keeps : Keeps Holds (pure tt)
  pure-Keeps = record { after = λ p h. h }

  migrate-Keeps : Keeps Holds (migrate m)
  unfolding migrate
  migrate-Keeps = record {
    after = λ p h. (h.0, up-closes true m.locker m.provider m.applied p.handles ∙ h.1);
  }

  start_api-Keeps : (cfg : Config) → Keeps Holds (start_api m cfg)
  unfolding start_api
  start_api-Keeps cfg = >>=-Keeps Holds (lift-Keeps Holds _) (λ _. note-Keeps serving)

  run_roles-Keeps : (opts : Options) (cfg : Config) → Keeps Holds (run_roles m opts cfg)
  unfolding run_roles
  run_roles-Keeps opts cfg =
      let built = new_blob_store m.loaded m.head_bucket m.absolute m.made cfg in
      let saga = forget (build_pipeline m.url_path m.system_prompt cfg) in
      >>=-Keeps Holds (lift-Keeps Holds built) λ _. >>=-Keeps Holds (note-Keeps storage_ready) λ _.
        >>=-Keeps Holds (lift-Keeps Holds saga) λ _.
          >>=-Keeps Holds (if-Keeps opts.run_api (start_api-Keeps cfg) pure-Keeps) λ _.
            >>=-Keeps Holds (if-Keeps opts.run_worker (note-Keeps working) pure-Keeps)
              λ _. lift-Keeps Holds (m.wait (returns m opts))

  with_pool-Keeps : (opts : Options) (cfg : Config) → Keeps Holds (with_pool m opts cfg)
  unfolding with_pool
  with_pool-Keeps opts cfg =
      >>=-Keeps Holds (if-Keeps (opts.migrate || cfg.migrate_on_start) migrate-Keeps pure-Keeps)
        λ _.
          if-Keeps (not opts.run_api && not opts.run_worker) pure-Keeps (run_roles-Keeps opts cfg)

-- What `start` does when the connection is made, or not.
connected :
    (m : Machine) (opts : Options) (cfg : Config) (p : Process) (r : Result (Unit {0})) (n : Pools)
    → Counts p.pools (r, n)
    → Holds m p.pools p.handles
        (((λ (_ : Process). (r, record p { pools = n })) >> defer_close (with_pool m opts cfg)) p).1
connected m opts cfg p (err e) n h = (h, refl)
connected m opts cfg p (ok _) n h =
    let kept =
      (with_pool-Keeps m (suc p.pools) p.handles opts cfg).after (record p { pools = n })
        (h, refl) in
    (omega (arith, kept.0), kept.1)

start-Holds :
    (m : Machine) (opts : Options) (p : Process) → Holds m p.pools p.handles (start m opts p).1
unfolding start
start-Holds m opts p = go (load m.environment)
  where
    go :
        (r : Result Config)
        → Holds m p.pools p.handles
            ((lift {S = Process} r >>= λ cfg.
                connect m cfg.database_url >> defer_close (with_pool m opts cfg))
              p).1
    go (err e) = (refl, refl)
    go (ok cfg) =
        let answer =
          new_pool m.parse_dsn m.create_pool m.ping cfg.database_url no_pool_config p.pools in
        connected m opts cfg p answer.0 answer.1
          (new_pool-Counts m.parse_dsn m.create_pool m.ping cfg.database_url no_pool_config p.pools)

chosen-Holds :
    (m : Machine) (opts : Options) (p : Process) (shown : Bool)
    → Holds m p.pools p.handles ((if shown then note printed_version else start m opts) p).1
chosen-Holds m opts p true = (refl, refl)
chosen-Holds m opts p false = start-Holds m opts p

-- However the process ends, with an error or without, and whatever it was asked to do, it has closed every pool of
-- connections and every database handle that it opened.
pub run-closes :
    (m : Machine) (p : Process) → ((run m p).1.pools ≡ p.pools) × ((run m p).1.handles ≡ p.handles)
unfolding run
run-closes m p = go (parse_flags m.args)
  where
    go :
        (r : Result Options)
        → Holds m p.pools p.handles
            ((lift {S = Process} r >>= λ opts.
                if opts.show_version then note printed_version else start m opts)
              p).1
    go (err e) = (refl, refl)
    go (ok opts) = chosen-Holds m opts p opts.show_version
