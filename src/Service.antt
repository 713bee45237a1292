-- ===== src/Service.antt =====
-- cmd/asset-optimizer: main.go, work_resources.go, health.go, shutdown.go, service_logging.go. A run
-- is one action; the resources that `run` releases by `defer` are released by `deferring`, so that
-- the order of their releases is that of the source.
pub mod World
pub mod Protocol
pub mod Lifecycle
pub mod Outcome
pub mod Failures
pub mod Ready
pub mod Health
pub mod Production
use geul_asset_optimizer.Base.{
  ℕ, String, ◌<>◌, Bool, true, false, Option, none, some, [], ◌∷◌, str_eq, if◌then◌else◌,
}
use geul_asset_optimizer.Base.Int.{ℤ}
use geul_asset_optimizer.Errors.{Error, wrap, Result, ok, err}
use geul_asset_optimizer.Optimizer.Options.Decimal.{print_ℤ}
use geul_asset_optimizer.Config.{Config, mesh_queue_config}
use geul_asset_optimizer.Effects.{
  M, pure, raise, ◌>>=◌, ◌>>◌, ask, call, note, deferring, as_result,
}
use World.{
  service_ready, service_stopping, service_failed, telemetry_pipeline_degraded, Wake, signalled,
  context_done, server_failed, Event, logger_set, config_loaded, telemetry_initialized,
  telemetry_shut_down, emitted, logged, work_dirs_made, stale_work_dirs_cleaned, storage_made,
  context_made, context_cancelled, connection_made, connection_closed, publisher_made,
  publisher_closed, processor_made, consumer_made, consumer_started, consumer_closed, listened,
  signals_notified, signals_stopped, woken, shutdown_context_made, shutdown_context_cancelled,
  server_shut_down, Trace, Env,
}

abbrev Act : Type 0 → Type 0
Act A = M Event A

abbrev Ended : Type 0
Ended = Result (Unit {0})

-- What the goroutine of `startHealthServer` sends, by what `serve` returns.
unfoldable pub server_error : (Error → Bool) → Option Error → Option Error
server_error is_server_closed none = none
server_error is_server_closed (some e) =
    if is_server_closed e then none else some (wrap "serve health endpoint: " e "")

-- The reason, the signal, and the error.
unfoldable pub wait_for_shutdown : Wake → String × Option String × Option Error
wait_for_shutdown (signalled s) = ("signal", some s, none)
wait_for_shutdown context_done = ("context_cancelled", none, none)
wait_for_shutdown (server_failed e) = ("http_server", none, some e)

module _ (env : Env) where
  abbrev event : Event → Act (Unit {0})
  event e = note (λ tr. e)

  unfoldable pub initialize_work_resources : Config → Act (Unit {0})
  initialize_work_resources cfg = do
    call "initialize work directory manager: " (work_dirs_made cfg.temp_dir)
        (λ tr. env.new_work_dirs tr cfg.temp_dir)
    removed ←
        ask "clean stale asset optimizer temp files: " stale_work_dirs_cleaned
          env.cleanup_stale_work_dirs
    call "initialize S3 client: " storage_made (λ tr. env.new_storage tr cfg)

  -- `":%d"` with the port. What its goroutine sends is what `stop_work` waits for.
  unfoldable pub start_health_server : Config → Act (Unit {0})
  start_health_server cfg =
      let addr = ":" <> print_ℤ cfg.port in
      call "listen health endpoint: " (listened addr) (λ tr. env.listen tr addr)

  -- The wait, the record of its end, and the cancellation of the work context.
  unfoldable pub stop_work : Act (Option Error)
  unfolding wait_for_shutdown
  stop_work tr =
      let w = env.wake tr (server_error env.is_server_closed (env.serve tr)) in
      let (reason, shutdown_signal, wait_err) = wait_for_shutdown w in
      (
        ok wait_err,
        context_cancelled ∷ emitted service_stopping ∷ logged reason shutdown_signal ∷ woken w ∷ tr,
      )

  unfoldable pub shut_down : Option Error → Act (Unit {0})
  shut_down wait_err =
      call "shutdown HTTP server: " server_shut_down env.shutdown_server >>= λ _ tr.
      (as_result wait_err, tr)

  unfoldable pub shut_down_in_time : Option Error → Act (Unit {0})
  unfolding shut_down
  shut_down_in_time wait_err tr =
      deferring (shut_down wait_err) (λ r tr'. shutdown_context_cancelled ∷ tr')
        (shutdown_context_made ∷ tr)

  unfoldable pub wait_and_stop : Act (Unit {0})
  unfolding shut_down_in_time
  wait_and_stop = stop_work >>= shut_down_in_time

  unfoldable pub serve_until_shutdown : Act (Unit {0})
  unfolding wait_and_stop
  serve_until_shutdown tr =
      deferring wait_and_stop (λ r tr'. signals_stopped ∷ tr')
        (signals_notified ∷ emitted service_ready ∷ tr)

  unfoldable pub use_consumer : Config → Act (Unit {0})
  unfolding serve_until_shutdown
  use_consumer cfg = do
    call "start mesh optimizer consumer: " consumer_started env.start_consumer
    start_health_server cfg
    serve_until_shutdown

  unfoldable pub open_consumer : Config → Act (Unit {0})
  unfolding use_consumer mesh_queue_config
  open_consumer cfg =
      let queue_config = mesh_queue_config env.queue_asset_optimizer_mesh cfg in
      call "initialize mesh optimizer consumer: " (consumer_made queue_config)
        (λ tr. env.new_consumer tr queue_config)
      >>= λ _. deferring (use_consumer cfg) (λ r tr. consumer_closed (env.close_consumer tr) ∷ tr)

  unfoldable pub use_publisher : Config → Act (Unit {0})
  unfolding open_consumer
  use_publisher cfg = do
    call "initialize mesh job processor: " (processor_made cfg.max_input_bytes)
        (λ tr. env.new_processor tr cfg.max_input_bytes)
    open_consumer cfg

  unfoldable pub open_publisher : Config → Act (Unit {0})
  unfolding use_publisher
  open_publisher cfg = call "initialize publisher: " publisher_made env.new_publisher >>= λ _.
      deferring (use_publisher cfg) (λ r tr. publisher_closed (env.close_publisher tr) ∷ tr)

  unfoldable pub open_connection : Config → Act (Unit {0})
  unfolding open_publisher
  open_connection cfg =
      call "connect to PostgreSQL: " (connection_made cfg.database_dsn)
        (λ tr. env.new_connection tr cfg.database_dsn)
      >>= λ _.
          deferring (open_publisher cfg) (λ r tr. connection_closed (env.close_connection tr) ∷ tr)

  unfoldable pub with_context : Config → Act (Unit {0})
  unfolding open_connection
  with_context cfg tr =
      deferring (open_connection cfg) (λ r tr'. context_cancelled ∷ tr') (context_made ∷ tr)

  unfoldable pub work : Config → Act (Unit {0})
  unfolding initialize_work_resources with_context
  work cfg = do initialize_work_resources cfg; with_context cfg

  -- The deferred record of a run that failed.
  abbrev report_failure : Ended → Trace → Trace
  report_failure (ok u) tr = tr
  report_failure (err e) tr = emitted (service_failed e) ∷ tr

  unfoldable pub reported : Config → Act (Unit {0})
  unfolding work
  reported cfg = deferring (work cfg) report_failure

  abbrev report_degraded : Option Error → Trace → Trace
  report_degraded none tr = tr
  report_degraded (some e) tr = emitted (telemetry_pipeline_degraded e) ∷ tr

  -- The function that `setupLogging` returns after a set-up that succeeded.
  unfoldable pub shutdown_logging : Trace → Trace
  shutdown_logging tr =
      let e = env.shutdown_telemetry tr in report_degraded e (telemetry_shut_down e ∷ tr)

  unfoldable pub with_logging : Config → Option Error → Act (Unit {0})
  unfolding reported
  with_logging cfg (some e) tr = reported cfg (emitted (telemetry_pipeline_degraded e) ∷ tr)
  with_logging cfg none tr =
      deferring (reported cfg) (λ r. shutdown_logging)
        (logger_set (str_eq cfg.log_level "debug") true ∷ tr)

  unfoldable pub setup_logging : Config → Act (Unit {0})
  unfolding with_logging
  setup_logging cfg tr =
      let tr' = logger_set (str_eq cfg.log_level "debug") false ∷ tr in
      let e = env.init_telemetry tr' in with_logging cfg e (telemetry_initialized e ∷ tr')

  unfoldable pub run_loaded : Result Config → Act (Unit {0})
  unfolding setup_logging
  run_loaded (ok cfg) tr = setup_logging cfg tr
  run_loaded (err e) tr =
      let load_err = wrap "load configuration: " e "" in
      (err load_err, emitted (service_failed load_err) ∷ tr)

  unfoldable pub run : Act (Unit {0})
  unfolding run_loaded
  run tr =
      let tr' = logger_set false false ∷ tr in
      let cfg = env.load_config tr' in run_loaded cfg (config_loaded cfg ∷ tr')

  abbrev exit_code : Ended → ℕ
  exit_code (ok u) = 0
  exit_code (err e) = 1

  -- The code that the process exits with, and the trace of its calls.
  unfoldable pub execute : ℕ × Trace
  unfolding run
  execute = let (r, tr) = run [] in (exit_code r, tr)
