-- ===== src/Service/Ready.antt =====
-- That a run of cmd/asset-optimizer that ends without an error has served.
use geul_asset_optimizer.Base.{
  arith, String, Bool, true, false, Option, none, some, [], ◌∷◌, ◌≡◌, refl,
}
use geul_asset_optimizer.Errors.{is_err, Error, Result, ok, err}
use geul_asset_optimizer.Config.{Config}
use geul_asset_optimizer.Effects.{continue, call, deferring, ◌>>=◌, as_result, with_prefix}
use geul_asset_optimizer.Effects.Blame.{any, Achieves, Achieves-bind, Achieves-deferring}
use geul_asset_optimizer.Service.World.{
  Env, Event, Trace, Wake, emitted, service_ready, service_stopping, service_failed,
  telemetry_pipeline_degraded, telemetry_shut_down, server_shut_down, context_cancelled, logged,
  woken, signals_notified, signals_stopped, shutdown_context_made, shutdown_context_cancelled,
}
use geul_asset_optimizer.Service.{
  Ended, stop_work, shut_down, shut_down_in_time, wait_and_stop, serve_until_shutdown, use_consumer,
  open_consumer, use_publisher, open_publisher, open_connection, with_context, work, report_failure,
  reported, report_degraded, shutdown_logging, with_logging, setup_logging, run_loaded, run,
}

abbrev pub is_ready : Event → Bool
is_ready (emitted service_ready) = true
is_ready _ = false

abbrev pub is_stopping : Event → Bool
is_stopping (emitted service_stopping) = true
is_stopping _ = false

any-cons :
    (test : Event → Bool) (e : Event) (tr : Trace) → any test tr ≡ true → any test (e ∷ tr) ≡ true
unfolding any
any-cons test e tr h = ground (arith, h)

-- What the parts of `run` have done when they return no error, for any event that is among those of
-- serving until a shutdown.
module _ (env : Env) (test : Event → Bool)
    (served : (w : Wake) (reason : String) (shutdown_signal : Option String) (tr : Trace)
      → any test (
          context_cancelled
          ∷ emitted service_stopping
          ∷ logged reason shutdown_signal
          ∷ woken w
          ∷ signals_notified
          ∷ emitted service_ready
          ∷ tr)
        ≡ true) where
  shut_down_answered :
      (e wait_err : Option Error) (tr : Trace)
      → any test tr ≡ true
      → any test
          (continue
            (with_prefix "shutdown HTTP server: " (as_result e))
            (λ _ tr'. (as_result wait_err, tr'))
            (server_shut_down e ∷ tr)).1
        ≡ true
  shut_down_answered none wait_err tr h = any-cons test (server_shut_down none) tr h
  shut_down_answered (some x) wait_err tr h = any-cons test (server_shut_down (some x)) tr h

  serve_until_shutdown-Achieves : Achieves test (serve_until_shutdown env)
  unfolding serve_until_shutdown wait_and_stop stop_work shut_down_in_time shut_down deferring call
      ◌>>=◌
  serve_until_shutdown-Achieves = record {
    achieved = λ tr h. any-cons test signals_stopped _ (
        any-cons test shutdown_context_cancelled _ (
          shut_down_answered (env.shutdown_server _) _ _
            (any-cons test shutdown_context_made _ (served _ _ _ tr))));
  }

  use_consumer-Achieves : (cfg : Config) → Achieves test (use_consumer env cfg)
  unfolding use_consumer
  use_consumer-Achieves cfg =
      Achieves-bind _ _ λ _. Achieves-bind _ _ λ _. serve_until_shutdown-Achieves

  open_publisher-Achieves : (cfg : Config) → Achieves test (open_publisher env cfg)
  unfolding open_publisher use_publisher open_consumer
  open_publisher-Achieves cfg = Achieves-bind _ _ λ _.
      Achieves-deferring _ _
        (Achieves-bind _ _ λ _.
          Achieves-bind _ _ λ _.
            Achieves-deferring _ _ (use_consumer-Achieves cfg) (λ r tr h. any-cons test _ tr h))
        (λ r tr h. any-cons test _ tr h)

  open_connection-Achieves : (cfg : Config) → Achieves test (open_connection env cfg)
  unfolding open_connection
  open_connection-Achieves cfg =
      Achieves-bind _ _
        λ _. Achieves-deferring _ _ (open_publisher-Achieves cfg) (λ r tr h. any-cons test _ tr h)

  with_context-Achieves : (cfg : Config) → Achieves test (with_context env cfg)
  unfolding with_context deferring
  with_context-Achieves cfg = record {
    achieved =
        λ tr h. any-cons test context_cancelled _ ((open_connection-Achieves cfg).achieved _ h);
  }

  work-Achieves : (cfg : Config) → Achieves test (work env cfg)
  unfolding work
  work-Achieves cfg = Achieves-bind _ _ λ _. with_context-Achieves cfg

  report_failure-keeps :
      (r : Ended) (tr : Trace) → any test tr ≡ true → any test (report_failure env r tr) ≡ true
  report_failure-keeps (ok u) tr h = h
  report_failure-keeps (err e) tr h = any-cons test (emitted (service_failed e)) tr h

  reported-Achieves : (cfg : Config) → Achieves test (reported env cfg)
  unfolding reported
  reported-Achieves cfg = Achieves-deferring _ _ (work-Achieves cfg) report_failure-keeps

  exporter_keeps :
      (e x : Option Error) (tr : Trace)
      → any test tr ≡ true
      → any test (report_degraded env e (telemetry_shut_down x ∷ tr)) ≡ true
  exporter_keeps none x tr h = any-cons test (telemetry_shut_down x) tr h
  exporter_keeps (some e) x tr h =
      any-cons test (emitted (telemetry_pipeline_degraded e)) _
        (any-cons test (telemetry_shut_down x) tr h)

  with_logging-Achieves : (cfg : Config) (e : Option Error) → Achieves test (with_logging env cfg e)
  unfolding with_logging shutdown_logging deferring
  with_logging-Achieves cfg none = record {
    achieved = λ tr h.
        exporter_keeps (env.shutdown_telemetry _) _ _ ((reported-Achieves cfg).achieved _ h);
  }
  with_logging-Achieves cfg (some e) = record {
    achieved = λ tr h. (reported-Achieves cfg).achieved _ h;
  }

  run_loaded-achieves :
      (cfg : Result Config) (tr : Trace)
      → is_err (run_loaded env cfg tr).0 ≡ false
      → any test (run_loaded env cfg tr).1 ≡ true
  unfolding run_loaded setup_logging
  run_loaded-achieves (ok cfg) tr h = (with_logging-Achieves cfg _).achieved _ h
  run_loaded-achieves (err e) tr h = cc

  run-achieves : is_err (run env []).0 ≡ false → any test (run env []).1 ≡ true
  unfolding run
  run-achieves = run_loaded-achieves _ _

-- A run that returns no error has reported that it is ready, and that it stops.
pub run-serves :
    (env : Env)
    → is_err (run env []).0 ≡ false
    → (any is_ready (run env []).1 ≡ true) × (any is_stopping (run env []).1 ≡ true)
unfolding any
run-serves env h = (
  run-achieves env is_ready (λ w reason shutdown_signal tr. refl) h,
  run-achieves env is_stopping (λ w reason shutdown_signal tr. refl) h,
)
