-- ===== src/Service/Lifecycle.antt =====
-- That a run of cmd/asset-optimizer follows the life cycle of Service/Protocol on each of its paths:
-- one lemma for each part of `run`, from the inside out.
use geul_asset_optimizer.Base.{ℕ, String, Option, none, some, List, ◌∷◌, ◌≡◌, refl}
use geul_asset_optimizer.Errors.{Error}
use geul_asset_optimizer.Config.{Config}
use geul_asset_optimizer.Effects.{
  call, deferring, continue, ◌>>=◌, Keeps, Keeps-bind, Keeps-call, Keeps-ask, Keeps-acquire,
  as_result, with_prefix,
}
use geul_asset_optimizer.Service.World.{Env, Trace, server_shut_down, shutdown_context_made}
use geul_asset_optimizer.Service.Protocol.{
  idle, listening, ready, cancelled, context, connection, publisher, consumer, signals,
  shutdown_context, Resource, Phase, Stage, stage,
}
use geul_asset_optimizer.Service.{
  context_made, service_ready, emitted, signals_notified, listened, stop_work, shut_down,
  shut_down_in_time, wait_and_stop, serve_until_shutdown, use_consumer, open_consumer,
  use_publisher, open_publisher, open_connection, with_context, work, initialize_work_resources,
  start_health_server,
}

abbrev pub at : Phase → List Resource → ℕ → Option Stage
at p s n = some (record { phase = p; held = s; failures = n })

module _ (env : Env) (n : ℕ) where
  module _ (s : List Resource) where
    stop_work-cancelled :
        (tr : Trace)
        → stage tr ≡ at ready (signals ∷ s) n
        → stage (stop_work env tr).1 ≡ at cancelled (signals ∷ s) n
    unfolding stop_work stage
    stop_work-cancelled tr h = rw h refl

    shut_down_answered :
        (wait_err e : Option Error) (tr : Trace)
        → stage tr ≡ at cancelled s n
        → stage
            (continue
              (with_prefix "shutdown HTTP server: " (as_result e))
              (λ _ tr'. (as_result wait_err, tr'))
              (server_shut_down e ∷ tr)).1
          ≡ at idle s n
    unfolding stage
    shut_down_answered wait_err none tr h = rw h refl
    shut_down_answered wait_err (some e) tr h = rw h refl

    shut_down-idle :
        (wait_err : Option Error) (tr : Trace)
        → stage tr ≡ at cancelled s n
        → stage (shut_down env wait_err tr).1 ≡ at idle s n
    unfolding shut_down ◌>>=◌ call
    shut_down-idle wait_err tr = shut_down_answered wait_err (env.shutdown_server tr) tr

  module _ (s : List Resource) where
    shut_down_in_time-idle :
        (wait_err : Option Error) (tr : Trace)
        → stage tr ≡ at cancelled s n
        → stage (shut_down_in_time env wait_err tr).1 ≡ at idle s n
    unfolding shut_down_in_time deferring stage
    shut_down_in_time-idle wait_err tr h =
        rw (shut_down-idle (shutdown_context ∷ s) wait_err (shutdown_context_made ∷ tr) (rw h refl))
          refl

  module _ (s : List Resource) where
    wait_and_stop-idle :
        (tr : Trace)
        → stage tr ≡ at ready (signals ∷ s) n
        → stage (wait_and_stop env tr).1 ≡ at idle (signals ∷ s) n
    unfolding wait_and_stop ◌>>=◌ stop_work
    wait_and_stop-idle tr h =
        shut_down_in_time-idle (signals ∷ s) _ (stop_work env tr).1 (stop_work-cancelled s tr h)

  module _ (s : List Resource) where
    serve_until_shutdown-idle :
        (tr : Trace)
        → stage tr ≡ at listening (consumer ∷ s) n
        → stage (serve_until_shutdown env tr).1 ≡ at idle (consumer ∷ s) n
    unfolding serve_until_shutdown deferring stage
    serve_until_shutdown-idle tr h =
        rw
          (wait_and_stop-idle (consumer ∷ s) (signals_notified ∷ emitted service_ready ∷ tr)
            (rw h refl))
          refl

    listened_idle :
        (addr : String) (e : Option Error) (tr : Trace)
        → stage tr ≡ at idle (consumer ∷ s) n
        → stage
            (continue
              (with_prefix "listen health endpoint: " (as_result e))
              (λ _. serve_until_shutdown env)
              (listened addr e ∷ tr)).1
          ≡ at idle (consumer ∷ s) n
    unfolding stage
    listened_idle addr none tr h = serve_until_shutdown-idle (listened addr none ∷ tr) (rw h refl)
    listened_idle addr (some e) tr h = rw h refl

    Keeps-serve :
        (cfg : Config)
        → Keeps stage
            (at idle (consumer ∷ s) n)
            (start_health_server env cfg >>= λ _. serve_until_shutdown env)
    unfolding start_health_server ◌>>=◌ call
    Keeps-serve cfg = record { keeps = λ tr. listened_idle _ (env.listen tr _) tr }

    Keeps-use_consumer :
        (cfg : Config) → Keeps stage (at idle (consumer ∷ s) n) (use_consumer env cfg)
    unfolding use_consumer stage
    Keeps-use_consumer cfg =
        Keeps-bind _ _ (Keeps-call _ _ _ _ _ (λ e tr h. rw h refl)) (λ _. Keeps-serve cfg)

  module _ (s : List Resource) where
    Keeps-open_consumer :
        (cfg : Config) → Keeps stage (at idle (publisher ∷ s) n) (open_consumer env cfg)
    unfolding open_consumer stage
    Keeps-open_consumer cfg =
        Keeps-acquire _ _ _ _ (at idle (consumer ∷ publisher ∷ s) n) (use_consumer env cfg) _
          (λ e tr h. rw h refl) (λ tr h. rw h refl) (Keeps-use_consumer (publisher ∷ s) cfg)
          (λ r tr h. rw h refl) _

    Keeps-use_publisher :
        (cfg : Config) → Keeps stage (at idle (publisher ∷ s) n) (use_publisher env cfg)
    unfolding use_publisher stage
    Keeps-use_publisher cfg =
        Keeps-bind _ _ (Keeps-call _ _ _ _ _ (λ e tr h. rw h refl)) (λ _. Keeps-open_consumer cfg)

  module _ (s : List Resource) where
    Keeps-open_publisher :
        (cfg : Config) → Keeps stage (at idle (connection ∷ s) n) (open_publisher env cfg)
    unfolding open_publisher stage
    Keeps-open_publisher cfg =
        Keeps-acquire _ _ _ _ (at idle (publisher ∷ connection ∷ s) n) (use_publisher env cfg) _
          (λ e tr h. rw h refl) (λ tr h. rw h refl) (Keeps-use_publisher (connection ∷ s) cfg)
          (λ r tr h. rw h refl) _

  module _ (s : List Resource) where
    Keeps-open_connection :
        (cfg : Config) → Keeps stage (at idle (context ∷ s) n) (open_connection env cfg)
    unfolding open_connection stage
    Keeps-open_connection cfg =
        Keeps-acquire _ _ _ _ (at idle (connection ∷ context ∷ s) n) (open_publisher env cfg) _
          (λ e tr h. rw h refl) (λ tr h. rw h refl) (Keeps-open_publisher (context ∷ s) cfg)
          (λ r tr h. rw h refl) _

    Keeps-with_context : (cfg : Config) → Keeps stage (at idle s n) (with_context env cfg)
    unfolding with_context deferring stage
    Keeps-with_context cfg = record {
      keeps = λ tr h. rw ((Keeps-open_connection cfg).keeps (context_made ∷ tr) (rw h refl)) refl;
    }

    Keeps-initialize :
        (cfg : Config) → Keeps stage (at idle s n) (initialize_work_resources env cfg)
    unfolding initialize_work_resources stage
    Keeps-initialize cfg = Keeps-bind _ _ (Keeps-call _ _ _ _ _ (λ e tr h. rw h refl)) λ _.
        Keeps-bind _ _ (Keeps-ask _ _ _ _ _ (λ e tr h. rw h refl))
          λ _. Keeps-call _ _ _ _ _ (λ e tr h. rw h refl)

    -- Whatever fails, the work leaves nothing open and no failure reported.
    pub Keeps-work : (cfg : Config) → Keeps stage (at idle s n) (work env cfg)
    unfolding work
    Keeps-work cfg = Keeps-bind _ _ (Keeps-initialize cfg) (λ _. Keeps-with_context cfg)
