-- ===== src/Service/Production/Refusals.antt =====
-- That no component of a production run refuses what the components before it hand over: the publisher
-- and the consumer get an open connection, and the configuration that was loaded is one that the
-- processor and the consumer accept.
use geul_asset_optimizer.Base.{
  not, Bool, true, false, Option, none, some, [], ◌∷◌, ◌≡◌, refl, ap, ◌∙◌, str_eq,
}
use geul_asset_optimizer.Base.Int.{pos, leb_ℤ}
use geul_asset_optimizer.Errors.{Error, is_some, Result, ok, err, error_of}
use geul_asset_optimizer.Config.{
  Config, load, IsLoaded, load-IsLoaded, loaded_is_accepted, mesh_queue_config,
}
use geul_asset_optimizer.Handler.Processor.{new_processor}
use geul_asset_optimizer.Mq.Publisher.{new_publisher}
use geul_asset_optimizer.Mq.Consumer.{new_consumer}
use geul_asset_optimizer.Effects.{
  deferring, ◌>>=◌, Keeps, Keeps-bind, Keeps-call, Keeps-ask, Keeps-acquire,
}
use geul_asset_optimizer.Effects.Blame.{any}
use geul_asset_optimizer.Effects.Sure.{Keeps-call_sure, Keeps-acquire_sure}
use geul_asset_optimizer.Service.World.{
  Env, Event, Trace, publisher_made, processor_made, consumer_made,
}
use geul_asset_optimizer.Service.Production.{External, production_dependencies, is_open}
use geul_asset_optimizer.Service.{
  logger_set, telemetry_shut_down, run, run_loaded, setup_logging, with_logging, shutdown_logging,
  reported, report_failure, report_degraded, work, initialize_work_resources, with_context,
  open_connection, open_publisher, use_publisher, open_consumer, use_consumer, start_health_server,
  serve_until_shutdown, wait_and_stop, stop_work, shut_down_in_time, shut_down, Ended,
}

-- The refusals of the publisher, the processor and the consumer.
abbrev pub is_refusal : Event → Bool
is_refusal (publisher_made e) = is_some e
is_refusal (processor_made max_input_bytes e) = is_some e
is_refusal (consumer_made config e) = is_some e
is_refusal _ = false

-- Whether something was refused, and whether the connection is open.
abbrev view : Trace → Bool × Bool
view tr = (any is_refusal tr, is_open tr)

abbrev connected : Bool × Bool
connected = (false, true)

abbrev alone : Bool × Bool
alone = (false, false)

set_open :
    {b : Bool} (tr : Trace) (c : Bool)
    → view tr ≡ (false, b)
    → ◌≡◌ {A = Bool × Bool} (any is_refusal tr, c) (false, c)
set_open tr c h = ap (λ (v : Bool × Bool). (v.0, c)) h

module _ (env : Env) where
  shut_down-Keeps : (wait_err : Option Error) → Keeps view connected (shut_down env wait_err)
  unfolding shut_down any
  shut_down-Keeps wait_err =
      Keeps-bind _ _ (Keeps-call _ _ _ _ _ λ e tr h. h) λ _. record { keeps = λ tr h. h }

  serve_until_shutdown-Keeps : Keeps view connected (serve_until_shutdown env)
  unfolding serve_until_shutdown wait_and_stop shut_down_in_time stop_work deferring any ◌>>=◌
  serve_until_shutdown-Keeps = record { keeps = λ tr h. (shut_down-Keeps _).keeps _ h }

  use_consumer-Keeps : (cfg : Config) → Keeps view connected (use_consumer env cfg)
  unfolding use_consumer start_health_server any
  use_consumer-Keeps cfg =
      Keeps-bind _ _ (Keeps-call _ _ _ _ _ λ e tr h. h)
        λ _. Keeps-bind _ _ (Keeps-call _ _ _ _ _ λ e tr h. h) λ _. serve_until_shutdown-Keeps

module _ (ext : External) (named : str_eq ext.queue_asset_optimizer_mesh "" ≡ false) where
  module _ (cfg : Config) (loaded : IsLoaded cfg)
      (short : leb_ℤ cfg.job_timeout_mins (pos 153_722_867) ≡ true) where
    consumer_accepted :
        (tr : Trace)
        → view tr ≡ connected
        → error_of (
            new_consumer
              (some (not (is_open tr)))
              (mesh_queue_config ext.queue_asset_optimizer_mesh cfg)
              true)
          ≡ none
    consumer_accepted tr h =
        rw (ap (λ (v : Bool × Bool). v.1) h)
          (rw (loaded_is_accepted ext.queue_asset_optimizer_mesh cfg named loaded short) refl)

    use_publisher-Keeps : Keeps view connected (use_publisher (production_dependencies ext) cfg)
    unfolding use_publisher open_consumer production_dependencies new_processor any
    use_publisher-Keeps = Keeps-bind _ _ (Keeps-call_sure _ _ _ _ _ (λ tr h. refl) (λ tr h. h)) λ _.
        Keeps-acquire_sure _ _ _ _ _ consumer_accepted _ _ _ (λ tr h. h)
          (use_consumer-Keeps (production_dependencies ext) cfg) (λ r tr h. h)

    publisher_accepted :
        (tr : Trace)
        → view tr ≡ connected
        → error_of (new_publisher (some (not (is_open tr)))) ≡ none
    unfolding new_publisher
    publisher_accepted tr h = rw (ap (λ (v : Bool × Bool). v.1) h) refl

    open_publisher-Keeps : Keeps view connected (open_publisher (production_dependencies ext) cfg)
    unfolding open_publisher production_dependencies any
    open_publisher-Keeps =
        Keeps-acquire_sure _ _ _ _ _ publisher_accepted _ _ _ (λ tr h. h) use_publisher-Keeps
          (λ r tr h. h)

    open_connection-Keeps : Keeps view alone (open_connection (production_dependencies ext) cfg)
    unfolding open_connection any
    open_connection-Keeps =
        Keeps-acquire _ _ _ _ connected (open_publisher (production_dependencies ext) cfg) _
          (λ e tr h. h) (λ tr h. set_open tr true h) open_publisher-Keeps
          (λ r tr h. set_open tr false h) _

    with_context-Keeps : Keeps view alone (with_context (production_dependencies ext) cfg)
    unfolding with_context deferring any
    with_context-Keeps = record { keeps = λ tr h. open_connection-Keeps.keeps _ h }

    work-Keeps : Keeps view alone (work (production_dependencies ext) cfg)
    unfolding work initialize_work_resources any
    work-Keeps =
        Keeps-bind _ _
          (Keeps-bind _ _ (Keeps-call _ _ _ _ _ λ e tr h. h) λ _.
            Keeps-bind _ _ (Keeps-ask _ _ _ _ _ λ r tr h. h) λ _. Keeps-call _ _ _ _ _ λ e tr h. h)
          λ _. with_context-Keeps

    report_failure-view :
        (r : Ended) (tr : Trace)
        → view (report_failure (production_dependencies ext) r tr) ≡ view tr
    unfolding any
    report_failure-view (ok u) tr = refl
    report_failure-view (err e) tr = refl

    reported-Keeps : Keeps view alone (reported (production_dependencies ext) cfg)
    unfolding reported deferring
    reported-Keeps = record { keeps = λ tr h. report_failure-view _ _ ∙ work-Keeps.keeps tr h }

    report_degraded-view :
        (e x : Option Error) (tr : Trace)
        → view (report_degraded (production_dependencies ext) e (telemetry_shut_down x ∷ tr))
          ≡ view tr
    unfolding any
    report_degraded-view none x tr = refl
    report_degraded-view (some e) x tr = refl

    with_logging-Keeps :
        (e : Option Error) → Keeps view alone (with_logging (production_dependencies ext) cfg e)
    unfolding with_logging any deferring shutdown_logging
    with_logging-Keeps none = record {
      keeps = λ tr h.
          let started = logger_set (str_eq cfg.log_level "debug") true ∷ tr in
          let ended = (reported (production_dependencies ext) cfg started).1 in
          report_degraded-view ((production_dependencies ext).shutdown_telemetry ended) _ ended
          ∙ reported-Keeps.keeps started h;
    }
    with_logging-Keeps (some e) = record { keeps = λ tr h. reported-Keeps.keeps _ h }

  module _ (fresh : (tr : Trace) → str_eq (ext.new_instance_id tr) "" ≡ false)
      (short : (tr : Trace) (cfg : Config)
        → load (ext.process_environment tr) (ext.new_instance_id tr) ≡ ok cfg
        → leb_ℤ cfg.job_timeout_mins (pos 153_722_867) ≡ true) where
    run_loaded-alone :
        (at tr : Trace) (r : Result Config)
        → load (ext.process_environment at) (ext.new_instance_id at) ≡ r
        → view tr ≡ alone
        → view (run_loaded (production_dependencies ext) r tr).1 ≡ alone
    unfolding run_loaded setup_logging any
    run_loaded-alone at tr (err e) loaded h = h
    run_loaded-alone at tr (ok cfg) loaded h =
        (with_logging-Keeps cfg (load-IsLoaded _ _ cfg (fresh at) loaded) (short at cfg loaded)
            _).keeps
          _ h

    pub run_refuses_nothing : any is_refusal (run (production_dependencies ext) []).1 ≡ false
    unfolding run production_dependencies any
    run_refuses_nothing = ap (λ (v : Bool × Bool). v.0) (run_loaded-alone _ _ _ refl refl)
