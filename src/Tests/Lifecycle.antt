-- ===== src/Tests/Lifecycle.antt =====
-- The service on a run that a signal ends, on one whose health endpoint fails, and on one whose
-- database cannot be reached; the set-up of the telemetry.
use geul_asset_optimizer.Base.{◌+◌, true, false, Option, none, some, [], ◌≡◌, refl}
use geul_asset_optimizer.Base.Int.{pos}
use geul_asset_optimizer.Errors.{is_err, Error, message, ok, err}
use geul_asset_optimizer.Effects.Blame.{any}
use geul_asset_optimizer.Config.{Config}
use geul_asset_optimizer.Service.World.{Wake, Env, signalled, server_failed}
use geul_asset_optimizer.Service.Protocol.{idle, stage}
use geul_asset_optimizer.Service.{run, execute, start_health_server, stop_work}
use geul_asset_optimizer.Service.Outcome.{execute-accounted}
use geul_asset_optimizer.Service.Failures.{is_fatal, run-blamed}
use geul_asset_optimizer.Service.Ready.{is_ready, is_stopping, run-serves}
use geul_asset_optimizer.Telemetry
use geul_asset_optimizer.Telemetry.{
  traces, init_with_dependencies, shutdown, running, started, init-running,
}
use geul_asset_optimizer.Effects.{deferring, ◌>>=◌, call, ask}

abbrev pub service_config : Config
service_config = record {
  port = pos 8080;
  instance_id = "i1";
  s3_bucket = "media";
  s3_region = "eu";
  s3_endpoint = "http://store";
  s3_access_key_id = "id";
  s3_secret_access_key = "secret";
  s3_force_path_style = true;
  database_dsn = "postgres://db";
  gltf_transform_path = "gltf-transform";
  node_binary_path = "node";
  particle_mesh_script_path = "particle.mjs";
  temp_dir = "/tmp/geul";
  max_input_bytes = pos 1000;
  worker_count = pos 1;
  job_timeout_mins = pos 20;
  log_level = "debug";
}

-- Every call succeeds, but for the two that are given and the wait.
abbrev service_with : Option Error → Option Error → Wake → Env
service_with connection exporter wake = record {
  queue_asset_optimizer_mesh = "asset_optimizer_mesh";
  is_server_closed = λ e. false;
  load_config = λ tr. ok service_config;
  init_telemetry = λ tr. exporter;
  shutdown_telemetry = λ tr. some (message "flush failed");
  new_work_dirs = λ tr dir. none;
  cleanup_stale_work_dirs = λ tr. ok (pos 2);
  new_storage = λ tr cfg. none;
  new_connection = λ tr dsn. connection;
  close_connection = λ tr. none;
  new_publisher = λ tr. none;
  close_publisher = λ tr. none;
  new_processor = λ tr bytes. none;
  new_consumer = λ tr config. none;
  start_consumer = λ tr. none;
  close_consumer = λ tr. none;
  listen = λ tr addr. none;
  serve = λ tr. none;
  wake = λ tr sent. wake;
  shutdown_server = λ tr. none;
}

abbrev signalled_service : Env
signalled_service = service_with none none (signalled "SIGTERM")

abbrev broken_service : Env
broken_service = service_with none none (server_failed (message "port lost"))

abbrev unreachable_service : Env
unreachable_service =
    service_with (some (message "refused")) (some (message "no collector")) (signalled "SIGTERM")

signalled_exit_test : (execute signalled_service).0 ≡ 0
unfolding execute run deferring ◌>>=◌ call ask start_health_server stop_work
signalled_exit_test = refl

unreachable_exit_test : (execute unreachable_service).0 ≡ 1
unfolding execute run deferring ◌>>=◌ call ask start_health_server stop_work
unreachable_exit_test = refl

broken_run_test : (run broken_service []).0 ≡ err (message "port lost")
unfolding run deferring ◌>>=◌ call ask start_health_server stop_work
broken_run_test = refl

execute-accounted_example :
    stage (execute unreachable_service).1
    ≡ some (record { phase = idle; held = []; failures = (execute unreachable_service).0 })
execute-accounted_example = execute-accounted unreachable_service

run-blamed_example : is_err (run broken_service []).0 ≡ any is_fatal (run broken_service []).1
run-blamed_example = run-blamed broken_service

signalled_run_ok : is_err (run signalled_service []).0 ≡ false
unfolding run deferring ◌>>=◌ call ask start_health_server stop_work
signalled_run_ok = refl

run-serves_example :
    (any is_ready (run signalled_service []).1 ≡ true)
    × (any is_stopping (run signalled_service []).1 ≡ true)
run-serves_example = run-serves signalled_service signalled_run_ok

abbrev pub exporters : Telemetry.Env
exporters = record {
  parse_service_name = λ name. ok name;
  new_resource = λ tr name. none;
  new_trace_exporter = λ tr. none;
  new_log_exporter = λ tr. some (message "no collector");
  shutdown_log_provider = λ tr. none;
  shutdown_tracer = λ tr. some (message "no flush");
}

-- The log exporter is refused, and the trace provider is shut down again.
init-running_example :
    (running traces (init_with_dependencies exporters "asset-optimizer" []).1
      ≡ some (0 + started (init_with_dependencies exporters "asset-optimizer" []).0))
    × ((init_with_dependencies exporters "asset-optimizer" []).0 ≡ none
        → running traces
            (shutdown exporters (init_with_dependencies exporters "asset-optimizer" []).1).1
          ≡ some 0)
unfolding running
init-running_example = init-running exporters traces "asset-optimizer" 0 [] refl
