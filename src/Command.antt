-- ===== src/Command.antt =====
-- cmd/api/main.go: the start and the end of a process. The libraries and the services that it starts are arguments,
-- by what they answer; log lines and signals are left out.
pub mod Flags
pub mod Parts
pub mod Ends
pub mod Job
use bankstmt_analyzer.Prelude.{
  Bool, true, false, not, ◌||◌, ◌&&◌, Option, List, [], ◌∷◌, ◌++◌, ℕ, if◌then◌else◌,
}
use bankstmt_analyzer.Text.{Bytes, codes, bytes_eq, quote}
use bankstmt_analyzer.Go.{Error, plain, wrap, error_text, Result, ok, err}
use bankstmt_analyzer.Go.Monad.{Exec, lift, pure, modify, ◌>>=◌, ◌>>◌}
use bankstmt_analyzer.Go.Integers.{pos}
use bankstmt_analyzer.Command.Flags.{Options, parse_flags}
use bankstmt_analyzer.Command.Parts.{forget, new_blob_store, build_pipeline}
use bankstmt_analyzer.Config
use bankstmt_analyzer.Config.{Config, backend_local, backend_s3, load, secrets}
use bankstmt_analyzer.Db.Pool.{PoolConfig, Pools, close_pool, new_pool}
use bankstmt_analyzer.Http.Router
use bankstmt_analyzer.Llm.Client
use bankstmt_analyzer.Go.Results
use bankstmt_analyzer.Migrate.{Handles, up}
use bankstmt_analyzer.Ocr
use bankstmt_analyzer.Pipeline.Start.{Pipeline, PoolEnd, new_pipeline, run_worker}
use bankstmt_analyzer.Storage.Local.{new_local}
use bankstmt_analyzer.Storage.S3.Open.{S3, new_s3}

-- How `ListenAndServe` ends: by `http.ErrServerClosed`, or by another error.
pub data ServeEnd : Type 0 where
  server_closed : ServeEnd
  serve_failed : Error → ServeEnd

-- What the process finds: its arguments, its environment, and what is answered to it.
pub record Machine : Type 0 where
  pub args : List Bytes
  pub environment : Result Config
  pub parse_dsn : Bytes → Result PoolConfig
  pub create_pool : PoolConfig → Result (Unit {0})
  pub ping : PoolConfig → Result (Unit {0})
  pub locker : Result (Unit {0})
  pub provider : Result (Unit {0})
  pub applied : Result (List Bytes)
  pub absolute : Result Bytes
  pub made : Result (Unit {0})
  pub loaded : Result (Unit {0})
  pub head_bucket : S3 → Result (Unit {0})
  pub url_path : Bytes → Result Bytes
  pub system_prompt : Bytes
  pub served : ServeEnd
  pub shut_down : Result (Unit {0})
  pub worked : PoolEnd
  -- `errgroup.Group.Wait` on what the goroutines return
  pub wait : List (Result (Unit {0})) → Result (Unit {0})

-- What the process does that lasts or that others see.
pub data Event : Type 0 where
  printed_version migrating storage_ready serving working : Event

pub record Process : Type 0 where
  pub pools : Pools
  pub handles : Handles
  pub events : List Event

abbrev note : Event → Exec Process (Unit {0})
note e = modify (λ p. record p { events = p.events ++ e ∷ [] })

-- `pool.Close()` when the call that follows has ended
abbrev defer_close : Exec Process (Unit {0}) → Exec Process (Unit {0})
defer_close call p = let (r, p') = call p in (r, record p' { pools = close_pool p'.pools })

-- `db.PoolConfig{}`
abbrev pub no_pool_config : PoolConfig
no_pool_config = record {
  max_conns = pos 0;
  min_conns = pos 0;
  max_conn_lifetime = pos 0;
  max_conn_idle_time = pos 0;
  health_check_period = pos 0;
  connect_timeout = pos 0;
}

module _ (m : Machine) where
  connect : Bytes → Exec Process (Unit {0})
  unfolding new_pool
  connect dsn p =
      let (r, n) = new_pool m.parse_dsn m.create_pool m.ping dsn no_pool_config p.pools in
      (r, record p { pools = n })

  migrate : Exec Process (Unit {0})
  unfolding up
  migrate p =
      let (r, n) = up true m.locker m.provider m.applied p.handles in
      (r, record p { handles = n; events = p.events ++ migrating ∷ [] })

  -- The goroutines that `startAPI` registers: serving, and shutting down when the context is cancelled.
  serve_result : ServeEnd → Result (Unit {0})
  serve_result server_closed = ok tt
  serve_result (serve_failed e) = err (wrap (codes "http server") e)

  shutdown_result : Result (Unit {0}) → Result (Unit {0})
  shutdown_result (ok _) = ok tt
  shutdown_result (err e) = err (wrap (codes "http server shutdown") e)

  -- `startAPI`
  unfoldable pub start_api : Config → Exec Process (Unit {0})
  unfolding Router.validate_deps
  start_api cfg = do
    lift (
        Router.validate_deps (record {
          logger = true;
          db = true;
          store = true;
          blobs = true;
          enqueuer = true;
          config = cfg;
        }))
    note serving

  -- What the goroutines of the roles return.
  unfoldable pub returns : Options → List (Result (Unit {0}))
  unfolding serve_result shutdown_result run_worker
  returns opts =
      (if opts.run_api then serve_result m.served ∷ shutdown_result m.shut_down ∷ [] else [])
      ++ (if opts.run_worker then run_worker m.worked ∷ [] else [])

  -- `run` from the choice of the roles on.
  run_roles : Options → Config → Exec Process (Unit {0})
  unfolding new_blob_store build_pipeline start_api returns
  run_roles opts cfg = do
    lift (new_blob_store m.loaded m.head_bucket m.absolute m.made cfg)
    note storage_ready
    lift (forget (build_pipeline m.url_path m.system_prompt cfg))
    (if opts.run_api then start_api cfg else pure tt)
    (if opts.run_worker then note working else pure tt)
    lift (m.wait (returns opts))

  -- `run` from the connection on.
  with_pool : Options → Config → Exec Process (Unit {0})
  unfolding migrate run_roles
  with_pool opts cfg = do
    (if opts.migrate || cfg.migrate_on_start then migrate else pure tt)
    (if not opts.run_api && not opts.run_worker then pure tt else run_roles opts cfg)

  start : Options → Exec Process (Unit {0})
  unfolding load connect with_pool
  start opts = do
    cfg ← lift (load m.environment)
    connect cfg.database_url
    defer_close (with_pool opts cfg)

  -- `run`
  unfoldable pub run : Exec Process (Unit {0})
  unfolding parse_flags start
  run = do
    opts ← lift (parse_flags m.args)
    (if opts.show_version then note printed_version else start opts)

  -- `main`: what is written to the standard error, and the exit code.
  unfoldable pub main : Process → Bytes × ℕ
  unfolding run error_text
  main p = elim (run p).0 [
    | ok _ ↦ ([], 0)
    | err e ↦ (codes "fatal: " ++ (error_text e ++ codes "\n"), 1)
  ]
