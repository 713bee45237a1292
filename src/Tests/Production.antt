-- ===== src/Tests/Production.antt =====
-- A production run: its components over files, a store and a database that answer every call, and
-- telemetry exporters that are refused.
use geul_asset_optimizer.Base.{true, false, none, some, [], ◌≡◌, ◌≤◌, refl, arith}
use geul_asset_optimizer.Base.Int.{pos, leb_ℤ}
use geul_asset_optimizer.Errors.{is_err, message, ok, ◌>>=◌, refuse_if}
use geul_asset_optimizer.Config.{mesh_queue_config, Config, load}
use geul_asset_optimizer.Effects.Blame.{any}
use geul_asset_optimizer.Service.World.{Trace, signalled}
use geul_asset_optimizer.Service.{run}
use geul_asset_optimizer.Service.Production.{External, production_dependencies}
use geul_asset_optimizer.Service.Production.Refusals.{is_refusal}
use geul_asset_optimizer.Service.Production.Failures.{is_outside, production_fails_outside}
use geul_asset_optimizer.Mq.Connection
use geul_asset_optimizer.Tests.Lifecycle.{service_config, exporters}
use geul_asset_optimizer.Mq.Consumer.Closing
use geul_asset_optimizer.Delivery.Serial.{loaded_is_serial}
use geul_asset_optimizer.Tests.Files.{files}
use geul_asset_optimizer.Mq.Consumer.Closing.{start}
use geul_asset_optimizer.Tests.Transport.{started_one, consumer_state, failing_store}

abbrev database : Connection.Env
database = record {
  open_postgres = λ tr dsn. none;
  ping = λ tr. none;
  close_db = λ tr. some (message "gone");
}

abbrev outside : External
outside = record {
  queue_asset_optimizer_mesh = "asset_optimizer_mesh";
  service_asset_optimizer = "asset-optimizer";
  is_server_closed = λ e. false;
  process_environment = λ tr. ok service_config;
  new_instance_id = λ tr. "0a1b2c3d";
  telemetry = λ tr. exporters;
  new_resource = λ tr events options. none;
  files = λ tr. files;
  store = λ tr. failing_store;
  database = λ tr. database;
  total_messages = λ tr. ok (pos 2);
  listen = λ tr addr. some (message "port in use");
  serve = λ tr. none;
  wake = λ tr sent. signalled "SIGTERM";
  shutdown_server = λ tr. none;
}

short_timeout :
    (tr : Trace) (cfg : Config)
    → load (ok service_config) "0a1b2c3d" ≡ ok cfg
    → leb_ℤ cfg.job_timeout_mins (pos 153_722_867) ≡ true
unfolding load ◌>>=◌ refuse_if
short_timeout tr cfg h = ground arith

production_fails_outside_example :
    (any is_refusal (run (production_dependencies outside) []).1 ≡ false)
    × (is_err (run (production_dependencies outside) []).0
        ≡ any is_outside (run (production_dependencies outside) []).1)
production_fails_outside_example = production_fails_outside outside refl (λ tr. refl) short_timeout

service_config_loads : load (ok service_config) "0a1b2c3d" ≡ ok service_config
unfolding load ◌>>=◌ refuse_if
service_config_loads = refl

-- The only worker processes a message.
busy_worker : Closing.Run (consumer_state 1 0 false 0 0 0) (consumer_state 0 1 false 0 0 0)
busy_worker = Closing.next (Closing.here _) (Closing.took_message _ 0 refl)

queue_config_starts :
    start (ok (pos 0)) (mesh_queue_config "mesh" service_config).workers
    ≡ ok (consumer_state 1 0 false 0 0 0)
unfolding mesh_queue_config
queue_config_starts = started_one

loaded_is_serial_example : (consumer_state 0 1 false 0 0 0).busy ≤ 1
loaded_is_serial_example =
    loaded_is_serial (ok service_config) "0a1b2c3d" "mesh" service_config (ok (pos 0))
      (consumer_state 1 0 false 0 0 0) (consumer_state 0 1 false 0 0 0) service_config_loads
      queue_config_starts busy_worker
