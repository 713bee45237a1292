-- ===== src/Service/Production.antt =====
-- cmd/asset-optimizer/service_dependencies.go: the dependencies of a run outside tests, each the
-- function of the component that makes or closes it. The libraries, the network and the files behind
-- the components are `External`, by the trace of the run so far.
pub mod Refusals
pub mod Failures
use geul_asset_optimizer.Base.{
  String, Bool, true, false, Option, none, some, List, [], ◌∷◌, if◌then◌else◌, not,
}
use geul_asset_optimizer.Base.Int.{ℤ, pos}
use geul_asset_optimizer.Errors.{Error, Result, ok, err, error_of}
use geul_asset_optimizer.Config.{Config, load}
use geul_asset_optimizer.Jobs.{QueueConfig}
use geul_asset_optimizer.Workdir
use geul_asset_optimizer.Storage
use geul_asset_optimizer.Telemetry
use geul_asset_optimizer.Telemetry.{ResourceOption}
use geul_asset_optimizer.Mq.Connection
use geul_asset_optimizer.Mq.Publisher.{new_publisher, close_publisher}
use geul_asset_optimizer.Mq.Consumer.{new_consumer}
use geul_asset_optimizer.Mq.Consumer.Closing.{start}
use geul_asset_optimizer.Optimizer.Cli.{Cli, new_cli}
use geul_asset_optimizer.Handler.Processor.{new_processor}
use geul_asset_optimizer.Service.World.{
  Env, Event, Trace, Wake, work_dirs_made, connection_made, connection_closed, consumer_made,
}

pub record External : Type 0 where
  -- the names in the event contracts and the telemetry library
  pub queue_asset_optimizer_mesh : String
  pub service_asset_optimizer : String
  -- `errors.Is(err, http.ErrServerClosed)`
  pub is_server_closed : Error → Bool
  -- `envconfig.Process`
  pub process_environment : Trace → Result Config
  -- `uuid.New().String()[:8]`
  pub new_instance_id : Trace → String
  pub telemetry : Trace → Telemetry.Env
  -- `resource.New`
  pub new_resource : Trace → Telemetry.Trace → List ResourceOption → Option Error
  pub files : Trace → Workdir.Env
  pub store : Trace → Storage.Env
  pub database : Trace → Connection.Env
  -- the readiness query of `Consumer.Start`
  pub total_messages : Trace → Result ℤ
  -- the network, the signals and the HTTP server
  pub listen : Trace → String → Option Error
  pub serve : Trace → Option Error
  pub wake : Trace → Option Error → Wake
  pub shutdown_server : Trace → Option Error

-- The root of the work directory manager of the run.
abbrev pub temp_root : Trace → String
temp_root [] = ""
temp_root (work_dirs_made dir none ∷ tr) = dir
temp_root (_ ∷ tr) = temp_root tr

-- Whether the database connection of the run is open.
abbrev pub is_open : Trace → Bool
is_open [] = false
is_open (connection_made dsn none ∷ tr) = true
is_open (connection_closed e ∷ tr) = false
is_open (_ ∷ tr) = is_open tr

-- The workers of the consumer of the run.
abbrev pub worker_count : Trace → ℤ
worker_count [] = pos 0
worker_count (consumer_made config none ∷ tr) = config.workers
worker_count (_ ∷ tr) = worker_count tr

abbrev cleaned : Option Error → ℤ → Result ℤ
cleaned none removed = ok removed
cleaned (some e) removed = err e

-- The optimizer that the processor is given.
unfoldable pub mesh_optimizer : Config → Cli
unfolding new_cli
mesh_optimizer cfg =
    new_cli cfg.gltf_transform_path cfg.node_binary_path cfg.particle_mesh_script_path

-- The connection that the constructors are given, by whether it is closed.
abbrev connection_at : Trace → Option Bool
connection_at tr = some (not (is_open tr))

module _ (ext : External) where
  unfoldable pub cleanup_stale_work_dirs : Trace → Result ℤ
  cleanup_stale_work_dirs tr =
      let (removed, e) = (Workdir.cleanup_stale_work_dirs (ext.files tr) (temp_root tr) []).0 in
      cleaned e (pos removed)

  unfoldable pub production_dependencies : Env
  unfolding cleanup_stale_work_dirs
  production_dependencies = record {
    queue_asset_optimizer_mesh = ext.queue_asset_optimizer_mesh;
    is_server_closed = ext.is_server_closed;
    load_config = λ tr. load (ext.process_environment tr) (ext.new_instance_id tr);
    init_telemetry = λ tr.
        (Telemetry.init (ext.new_resource tr) (ext.telemetry tr) ext.service_asset_optimizer []).0;
    shutdown_telemetry = λ tr. (Telemetry.shutdown (ext.telemetry tr) []).0;
    new_work_dirs = λ tr dir. error_of (Workdir.new_manager (ext.files tr) dir []).0;
    cleanup_stale_work_dirs = cleanup_stale_work_dirs;
    new_storage = λ tr cfg. error_of (Storage.new_s3_client (ext.store tr) cfg []).0;
    new_connection = λ tr dsn. error_of (Connection.new_connection (ext.database tr) dsn []).0;
    close_connection = λ tr. (Connection.close (ext.database tr) (not (is_open tr)) []).0;
    new_publisher = λ tr. error_of (new_publisher (connection_at tr));
    close_publisher = λ tr. close_publisher;
    new_processor =
        λ tr max_input_bytes. error_of (new_processor max_input_bytes true true true true);
    new_consumer = λ tr config. error_of (new_consumer (connection_at tr) config true);
    start_consumer = λ tr. error_of (start (ext.total_messages tr) (worker_count tr));
    close_consumer = λ tr. none;
    listen = ext.listen;
    serve = ext.serve;
    wake = ext.wake;
    shutdown_server = ext.shutdown_server;
  }
