-- ===== src/Service/Outcome.antt =====
-- What a whole run of cmd/asset-optimizer ends with: main.go's `run` and `execute`.
use geul_asset_optimizer.Base.{false, true, ℕ, Bool, Option, none, some, List, [], ◌∷◌, ◌≡◌, refl}
use geul_asset_optimizer.Errors.{Error, Result, ok, err}
use geul_asset_optimizer.Config.{Config}
use geul_asset_optimizer.Effects.{deferring}
use geul_asset_optimizer.Service.World.{Env, Trace}
use geul_asset_optimizer.Service.Protocol.{idle, logging, Resource, stage}
use geul_asset_optimizer.Service.Lifecycle.{at, Keeps-work}
use geul_asset_optimizer.Service.{
  telemetry_shut_down, report_degraded, telemetry_initialized, shutdown_logging, config_loaded,
  exit_code, report_failure, Ended, reported, with_logging, setup_logging, run_loaded, run, execute,
}

-- What is held when a failure may be reported: at most the log exporter.
abbrev left : Bool → List Resource
left true = logging ∷ []
left false = []

module _ (env : Env) where
  report_failure-counted :
      (exporting : Bool) (r : Ended) (tr : Trace)
      → stage tr ≡ at idle (left exporting) 0
      → stage (report_failure env r tr) ≡ at idle (left exporting) (exit_code env r)
  unfolding stage
  report_failure-counted exporting (ok u) tr h = h
  report_failure-counted true (err e) tr h = rw h refl
  report_failure-counted false (err e) tr h = rw h refl

  reported-counted :
      (exporting : Bool) (cfg : Config) (tr : Trace)
      → stage tr ≡ at idle (left exporting) 0
      → stage (reported env cfg tr).1
        ≡ at idle (left exporting) (exit_code env (reported env cfg tr).0)
  unfolding reported deferring
  reported-counted exporting cfg tr h =
      report_failure-counted exporting _ _ ((Keeps-work env 0 (left exporting) cfg).keeps tr h)

  exporter_closed :
      (e : Option Error) (n : ℕ) (tr : Trace)
      → stage tr ≡ at idle (logging ∷ []) n
      → stage (report_degraded env e (telemetry_shut_down e ∷ tr)) ≡ at idle [] n
  unfolding stage
  exporter_closed none n tr h = rw h refl
  exporter_closed (some e) n tr h = rw h refl

  with_logging-counted :
      (cfg : Config) (e : Option Error) (tr : Trace)
      → stage tr ≡ at idle [] 0
      → stage (with_logging env cfg e (telemetry_initialized e ∷ tr)).1
        ≡ at idle [] (exit_code env (with_logging env cfg e (telemetry_initialized e ∷ tr)).0)
  unfolding with_logging deferring shutdown_logging stage
  with_logging-counted cfg none tr h =
      exporter_closed (env.shutdown_telemetry _) _ _ (reported-counted true cfg _ (rw h refl))
  with_logging-counted cfg (some e) tr h = reported-counted false cfg _ (rw h refl)

  run_loaded-counted :
      (cfg : Result Config) (tr : Trace)
      → stage tr ≡ at idle [] 0
      → stage (run_loaded env cfg (config_loaded cfg ∷ tr)).1
        ≡ at idle [] (exit_code env (run_loaded env cfg (config_loaded cfg ∷ tr)).0)
  unfolding run_loaded setup_logging stage
  run_loaded-counted (ok cfg) tr h = with_logging-counted cfg _ _ (rw h refl)
  run_loaded-counted (err e) tr h = rw h refl

  -- Every run of the service keeps to the life cycle, ends with the endpoint down and every resource
  -- released, and has reported as many failures as its exit code says: one if it failed, else none.
  pub execute-accounted :
      stage (execute env).1 ≡ some (record { phase = idle; held = []; failures = (execute env).0 })
  unfolding execute run stage
  execute-accounted = run_loaded-counted _ _ refl
