-- ===== src/Service/Production/Failures.antt =====
-- What a production run can fail of.
use geul_asset_optimizer.Base.{Bool, true, false, [], ◌∷◌, ◌≡◌, refl, ◌∙◌, arith, str_eq}
use geul_asset_optimizer.Base.Int.{pos, leb_ℤ}
use geul_asset_optimizer.Errors.{is_some, is_err, ok}
use geul_asset_optimizer.Config.{Config, load}
use geul_asset_optimizer.Effects.Blame.{any}
use geul_asset_optimizer.Service.World.{
  Event, Trace, config_loaded, work_dirs_made, stale_work_dirs_cleaned, storage_made,
  connection_made, publisher_made, processor_made, consumer_made, consumer_started, listened, woken,
  server_shut_down,
}
use geul_asset_optimizer.Service.{run}
use geul_asset_optimizer.Service.Failures.{is_fatal, is_server_failed, run-blamed}
use geul_asset_optimizer.Service.Production.{External, production_dependencies}
use geul_asset_optimizer.Service.Production.Refusals.{is_refusal, run_refuses_nothing}

-- A failure of the environment variables, the files, the store's configuration, the database, the
-- queue, the network or the server.
abbrev pub is_outside : Event → Bool
is_outside (config_loaded r) = is_err r
is_outside (work_dirs_made dir e) = is_some e
is_outside (stale_work_dirs_cleaned r) = is_err r
is_outside (storage_made e) = is_some e
is_outside (connection_made dsn e) = is_some e
is_outside (consumer_started e) = is_some e
is_outside (listened addr e) = is_some e
is_outside (woken w) = is_server_failed w
is_outside (server_shut_down e) = is_some e
is_outside _ = false

fatal_not_refused : (e : Event) → is_refusal e ≡ false → is_fatal e ≡ is_outside e
fatal_not_refused (publisher_made e) h = h
fatal_not_refused (processor_made max_input_bytes e) h = h
fatal_not_refused (consumer_made config e) h = h
fatal_not_refused _ h = refl

any_fatal_outside : (tr : Trace) → any is_refusal tr ≡ false → any is_fatal tr ≡ any is_outside tr
unfolding any
any_fatal_outside [] h = refl
any_fatal_outside (e ∷ tr) h = ground (arith, fatal_not_refused e, any_fatal_outside tr)

-- In production no component refuses what the components before it hand over: the publisher and the
-- consumer get an open connection, and the processor and the consumer accept the configuration that
-- was loaded. So a run returns an error exactly when something outside failed: the configuration, the
-- work directories, the store's configuration, the database, the queue, the port, or the server. The
-- conditions are that the queue has a name, a fresh instance id is not empty, and the configured time
-- out is at most 153722867 minutes.
pub production_fails_outside :
    (ext : External)
    → str_eq ext.queue_asset_optimizer_mesh "" ≡ false
    → ((tr : Trace) → str_eq (ext.new_instance_id tr) "" ≡ false)
    → ((tr : Trace) (cfg : Config)
        → load (ext.process_environment tr) (ext.new_instance_id tr) ≡ ok cfg
        → leb_ℤ cfg.job_timeout_mins (pos 153_722_867) ≡ true)
    → let r = run (production_dependencies ext) [] in
      (any is_refusal r.1 ≡ false) × (is_err r.0 ≡ any is_outside r.1)
production_fails_outside ext named fresh short =
    let sure = run_refuses_nothing ext named fresh short in
    (sure, run-blamed (production_dependencies ext) ∙ any_fatal_outside _ sure)
