-- ===== src/Service/Failures.antt =====
-- Which failures end a run of cmd/asset-optimizer with an error, and which it survives: the log
-- exporter's, and those of closing what it had opened.
use geul_asset_optimizer.Base.{
  sym, [], Bool, true, false, ◌||◌, Option, none, some, ◌∷◌, ◌≡◌, ◌∙◌, refl, arith,
}
use geul_asset_optimizer.Errors.{is_some, is_err, Error, Result, ok, err}
use geul_asset_optimizer.Config.{Config}
use geul_asset_optimizer.Effects.{call, deferring, continue, ◌>>=◌, as_result, with_prefix}
use geul_asset_optimizer.Effects.Blame.{
  any, IsBlamed, IsBlamed-bind, IsBlamed-call, IsBlamed-ask, IsBlamed-deferring,
}
use geul_asset_optimizer.Service.World.{
  Env, Event, Trace, Wake, server_failed, signalled, context_done, config_loaded, work_dirs_made,
  stale_work_dirs_cleaned, storage_made, connection_made, publisher_made, processor_made,
  consumer_made, consumer_started, listened, woken, server_shut_down, shutdown_context_made, logged,
  emitted, service_stopping, context_cancelled, telemetry_shut_down,
}
use geul_asset_optimizer.Service.{
  shutdown_logging, setup_logging, report_failure, run, Ended, reported, report_degraded,
  run_loaded, with_logging, stop_work, shut_down, shut_down_in_time, wait_and_stop,
  serve_until_shutdown, use_consumer, open_consumer, use_publisher, open_publisher, open_connection,
  with_context, work, initialize_work_resources, start_health_server, wait_for_shutdown,
}

abbrev pub is_server_failed : Wake → Bool
is_server_failed (server_failed e) = true
is_server_failed _ = false

-- The failures that a run does not survive.
abbrev pub is_fatal : Event → Bool
is_fatal (config_loaded r) = is_err r
is_fatal (work_dirs_made dir e) = is_some e
is_fatal (stale_work_dirs_cleaned r) = is_err r
is_fatal (storage_made e) = is_some e
is_fatal (connection_made dsn e) = is_some e
is_fatal (publisher_made e) = is_some e
is_fatal (processor_made bytes e) = is_some e
is_fatal (consumer_made config e) = is_some e
is_fatal (consumer_started e) = is_some e
is_fatal (listened addr e) = is_some e
is_fatal (woken w) = is_server_failed w
is_fatal (server_shut_down e) = is_some e
is_fatal _ = false

module _ (env : Env) where
  shut_down_answered :
      (w : Wake) (e : Option Error) (tr : Trace)
      → let r =
          continue
            (with_prefix "shutdown HTTP server: " (as_result e))
            (λ _ tr'. (as_result (wait_for_shutdown w).2, tr'))
            (server_shut_down e
              ∷ shutdown_context_made
              ∷ context_cancelled
              ∷ emitted service_stopping
              ∷ logged (wait_for_shutdown w).0 (wait_for_shutdown w).1
              ∷ woken w
              ∷ tr) in
        any is_fatal r.1 ≡ (any is_fatal tr || is_err r.0)
  unfolding any wait_for_shutdown
  shut_down_answered (signalled s) none tr = ground arith
  shut_down_answered (signalled s) (some e) tr = ground arith
  shut_down_answered context_done none tr = ground arith
  shut_down_answered context_done (some e) tr = ground arith
  shut_down_answered (server_failed x) none tr = ground arith
  shut_down_answered (server_failed x) (some e) tr = ground arith

  wait_and_stop-IsBlamed : IsBlamed is_fatal (wait_and_stop env)
  unfolding wait_and_stop stop_work shut_down_in_time shut_down deferring call ◌>>=◌ any
  wait_and_stop-IsBlamed = record { blamed = λ tr. shut_down_answered _ (env.shutdown_server _) tr }

  serve_until_shutdown-IsBlamed : IsBlamed is_fatal (serve_until_shutdown env)
  unfolding serve_until_shutdown deferring any
  serve_until_shutdown-IsBlamed = record { blamed = λ tr. wait_and_stop-IsBlamed.blamed _ }

  use_consumer-IsBlamed : (cfg : Config) → IsBlamed is_fatal (use_consumer env cfg)
  unfolding use_consumer start_health_server
  use_consumer-IsBlamed cfg =
      IsBlamed-bind _ (IsBlamed-call _ _ _ _ (λ e. refl))
        λ _. IsBlamed-bind _ (IsBlamed-call _ _ _ _ (λ e. refl)) λ _. serve_until_shutdown-IsBlamed

  open_consumer-IsBlamed : (cfg : Config) → IsBlamed is_fatal (open_consumer env cfg)
  unfolding open_consumer any
  open_consumer-IsBlamed cfg =
      IsBlamed-bind _ (IsBlamed-call _ _ _ _ (λ e. refl))
        λ _. IsBlamed-deferring _ _ (use_consumer-IsBlamed cfg) (λ r tr. refl)

  open_publisher-IsBlamed : (cfg : Config) → IsBlamed is_fatal (open_publisher env cfg)
  unfolding open_publisher use_publisher any
  open_publisher-IsBlamed cfg = IsBlamed-bind _ (IsBlamed-call _ _ _ _ (λ e. refl)) λ _.
      IsBlamed-deferring _ _
        (IsBlamed-bind _ (IsBlamed-call _ _ _ _ (λ e. refl)) λ _. open_consumer-IsBlamed cfg)
        (λ r tr. refl)

  open_connection-IsBlamed : (cfg : Config) → IsBlamed is_fatal (open_connection env cfg)
  unfolding open_connection any
  open_connection-IsBlamed cfg =
      IsBlamed-bind _ (IsBlamed-call _ _ _ _ (λ e. refl))
        λ _. IsBlamed-deferring _ _ (open_publisher-IsBlamed cfg) (λ r tr. refl)

  with_context-IsBlamed : (cfg : Config) → IsBlamed is_fatal (with_context env cfg)
  unfolding with_context deferring any
  with_context-IsBlamed cfg = record { blamed = λ tr. (open_connection-IsBlamed cfg).blamed _ }

  work-IsBlamed : (cfg : Config) → IsBlamed is_fatal (work env cfg)
  unfolding work initialize_work_resources
  work-IsBlamed cfg =
      IsBlamed-bind _
        (IsBlamed-bind _ (IsBlamed-call _ _ _ _ (λ e. refl)) λ _.
          IsBlamed-bind _ (IsBlamed-ask _ _ _ _ (λ e. refl)) λ _. IsBlamed-call _ _ _ _ (λ e. refl))
        (λ _. with_context-IsBlamed cfg)

  report_failure-any :
      (r : Ended) (tr : Trace) → any is_fatal (report_failure env r tr) ≡ any is_fatal tr
  unfolding any
  report_failure-any (ok u) tr = refl
  report_failure-any (err e) tr = refl

  reported-IsBlamed : (cfg : Config) → IsBlamed is_fatal (reported env cfg)
  unfolding reported
  reported-IsBlamed cfg = IsBlamed-deferring _ _ (work-IsBlamed cfg) report_failure-any

  exporter_any :
      (e x : Option Error) (tr : Trace)
      → any is_fatal (report_degraded env e (telemetry_shut_down x ∷ tr)) ≡ any is_fatal tr
  unfolding any
  exporter_any none x tr = refl
  exporter_any (some e) x tr = refl

  with_logging-IsBlamed :
      (cfg : Config) (e : Option Error) → IsBlamed is_fatal (with_logging env cfg e)
  unfolding with_logging any deferring shutdown_logging
  with_logging-IsBlamed cfg none = record {
    blamed = λ tr. exporter_any (env.shutdown_telemetry _) _ _ ∙ (reported-IsBlamed cfg).blamed _;
  }
  with_logging-IsBlamed cfg (some e) = record { blamed = λ tr. (reported-IsBlamed cfg).blamed _ }

  run_loaded-blamed :
      (cfg : Result Config) (tr : Trace)
      → let r = run_loaded env cfg (config_loaded cfg ∷ tr) in
        any is_fatal r.1 ≡ (any is_fatal tr || is_err r.0)
  unfolding run_loaded setup_logging any
  run_loaded-blamed (ok cfg) tr = (with_logging-IsBlamed cfg _).blamed _
  run_loaded-blamed (err e) tr = ground arith

  -- A run returns an error exactly when one of its calls had a fatal failure, a failed server
  -- included; a log exporter that cannot be set up or shut down, and a resource that cannot be closed,
  -- do not fail it.
  pub run-blamed : is_err (run env []).0 ≡ any is_fatal (run env []).1
  unfolding run any
  run-blamed = sym (run_loaded-blamed _ _)
