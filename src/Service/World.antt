-- ===== src/Service/World.antt =====
-- What cmd/asset-optimizer talks to: the `dependencies` of service_dependencies.go, the telemetry
-- records, the log, and the wait for a shutdown. A reply is a function of the whole trace before the
-- call. Each object is made at most once in a run, so the events do not name it. `newOptimizer` only
-- fills in a structure.
use geul_asset_optimizer.Base.{String, Bool, Option, List}
use geul_asset_optimizer.Base.Int.{ℤ}
use geul_asset_optimizer.Errors.{Error, Result}
use geul_asset_optimizer.Jobs.{QueueConfig}
use geul_asset_optimizer.Config.{Config}

pub data ServiceRecord : Type 0 where
  service_ready service_stopping : ServiceRecord
  service_failed : Error → ServiceRecord
  telemetry_pipeline_degraded : Error → ServiceRecord

-- What `select` of `waitForShutdown` receives.
pub data Wake : Type 0 where
  signalled : String → Wake
  context_done : Wake
  server_failed : Error → Wake

pub data Event : Type 0 where
  -- `slog.SetDefault`, by whether the level is debug and whether records are also exported
  logger_set : Bool → Bool → Event
  config_loaded : Result Config → Event
  telemetry_initialized : Option Error → Event
  telemetry_shut_down : Option Error → Event
  emitted : ServiceRecord → Event
  -- the end of the wait, by its reason and the signal
  logged : String → Option String → Event
  work_dirs_made : String → Option Error → Event
  stale_work_dirs_cleaned : Result ℤ → Event
  storage_made : Option Error → Event
  context_made : Event
  context_cancelled : Event
  connection_made : String → Option Error → Event
  connection_closed : Option Error → Event
  publisher_made : Option Error → Event
  publisher_closed : Option Error → Event
  processor_made : ℤ → Option Error → Event
  consumer_made : QueueConfig → Option Error → Event
  consumer_started : Option Error → Event
  consumer_closed : Option Error → Event
  listened : String → Option Error → Event
  signals_notified : Event
  signals_stopped : Event
  woken : Wake → Event
  shutdown_context_made : Event
  shutdown_context_cancelled : Event
  server_shut_down : Option Error → Event

abbrev pub Trace : Type 0
Trace = List Event

pub record Env : Type 0 where
  -- the name of the queue in the event contracts
  pub queue_asset_optimizer_mesh : String
  -- `errors.Is(err, http.ErrServerClosed)`
  pub is_server_closed : Error → Bool
  pub load_config : Trace → Result Config
  pub init_telemetry : Trace → Option Error
  pub shutdown_telemetry : Trace → Option Error
  pub new_work_dirs : Trace → String → Option Error
  pub cleanup_stale_work_dirs : Trace → Result ℤ
  pub new_storage : Trace → Config → Option Error
  pub new_connection : Trace → String → Option Error
  pub close_connection : Trace → Option Error
  pub new_publisher : Trace → Option Error
  pub close_publisher : Trace → Option Error
  pub new_processor : Trace → ℤ → Option Error
  pub new_consumer : Trace → QueueConfig → Option Error
  pub start_consumer : Trace → Option Error
  pub close_consumer : Trace → Option Error
  pub listen : Trace → String → Option Error
  -- what `serve` returns in its goroutine
  pub serve : Trace → Option Error
  -- the choice of `select`, given what the goroutine sends
  pub wake : Trace → Option Error → Wake
  pub shutdown_server : Trace → Option Error
