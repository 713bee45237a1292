-- ===== src/Service/Protocol.antt =====
-- The life cycle that a run of the service has to follow, read off a trace independently of the
-- code: the phase of the health endpoint, the resources that are held, the newest first, and the
-- number of failures reported.
use geul_asset_optimizer.Base.{ℕ, suc, Option, none, some, List, [], ◌∷◌}
use geul_asset_optimizer.Service.World.{
  service_ready, service_stopping, service_failed, Event, telemetry_initialized,
  telemetry_shut_down, emitted, logged, context_made, context_cancelled, connection_made,
  connection_closed, publisher_made, publisher_closed, consumer_made, consumer_started,
  consumer_closed, listened, signals_notified, signals_stopped, woken, shutdown_context_made,
  shutdown_context_cancelled, server_shut_down, Trace,
}

-- `idle`: the endpoint is not listening.
pub data Phase : Type 0 where
  idle listening ready stopping cancelled : Phase

pub data Resource : Type 0 where
  logging context connection publisher consumer signals shutdown_context : Resource

pub record Stage : Type 0 where
  pub phase : Phase
  pub held : List Resource
  pub failures : ℕ

-- The phase after an event; an event that its phase does not allow has none. What is not named here
-- happens while the endpoint is not listening: no resource is opened or released while it is.
abbrev pub next_phase : Event → Phase → Option Phase
next_phase (listened addr none) idle = some listening
next_phase (emitted service_ready) listening = some ready
next_phase (emitted service_ready) _ = none
next_phase signals_notified ready = some ready
next_phase (woken w) ready = some ready
next_phase (logged reason shutdown_signal) ready = some ready
next_phase (emitted service_stopping) ready = some stopping
next_phase (emitted service_stopping) _ = none
next_phase context_cancelled stopping = some cancelled
next_phase shutdown_context_made cancelled = some cancelled
next_phase (server_shut_down e) cancelled = some idle
next_phase (server_shut_down e) _ = none
next_phase _ idle = some idle
next_phase _ _ = none

-- The resources after an event: a release is that of the newest one, a consumer is made on a
-- publisher on a connection, the work context may also be cancelled before its turn, and a failure is reported when nothing but the log exporter is left.
abbrev pub next_held : Event → List Resource → Option (List Resource)
next_held (telemetry_initialized none) [] = some (logging ∷ [])
next_held (telemetry_initialized none) _ = none
next_held (telemetry_shut_down e) (logging ∷ s) = some s
next_held (telemetry_shut_down e) _ = none
next_held context_made s = some (context ∷ s)
next_held context_cancelled (context ∷ s) = some s
next_held (connection_made dsn none) (context ∷ s) = some (connection ∷ context ∷ s)
next_held (connection_made dsn none) _ = none
next_held (connection_closed e) (connection ∷ s) = some s
next_held (connection_closed e) _ = none
next_held (publisher_made none) (connection ∷ s) = some (publisher ∷ connection ∷ s)
next_held (publisher_made none) _ = none
next_held (publisher_closed e) (publisher ∷ s) = some s
next_held (publisher_closed e) _ = none
next_held (consumer_made config none) (publisher ∷ s) = some (consumer ∷ publisher ∷ s)
next_held (consumer_made config none) _ = none
next_held (consumer_started e) (consumer ∷ s) = some (consumer ∷ s)
next_held (consumer_started e) _ = none
next_held (consumer_closed e) (consumer ∷ s) = some s
next_held (consumer_closed e) _ = none
next_held (listened addr e) (consumer ∷ s) = some (consumer ∷ s)
next_held (listened addr e) _ = none
next_held signals_notified s = some (signals ∷ s)
next_held signals_stopped (signals ∷ s) = some s
next_held signals_stopped _ = none
next_held shutdown_context_made s = some (shutdown_context ∷ s)
next_held shutdown_context_cancelled (shutdown_context ∷ s) = some s
next_held shutdown_context_cancelled _ = none
next_held (emitted (service_failed e)) [] = some []
next_held (emitted (service_failed e)) (logging ∷ []) = some (logging ∷ [])
next_held (emitted (service_failed e)) _ = none
next_held _ s = some s

abbrev pub next_failures : Event → ℕ → ℕ
next_failures (emitted (service_failed e)) n = suc n
next_failures _ n = n

abbrev both : Option Phase → Option (List Resource) → ℕ → Option Stage
both (some p) (some s) n = some (record { phase = p; held = s; failures = n })
both _ _ n = none

abbrev pub next_stage : Event → Option Stage → Option Stage
next_stage e none = none
next_stage e (some s) =
    both (next_phase e s.phase) (next_held e s.held) (next_failures e s.failures)

-- The stage of a trace, `none` if an event of it was not allowed.
unfoldable pub stage : Trace → Option Stage
stage [] = some (record { phase = idle; held = []; failures = 0 })
stage (e ∷ tr) = next_stage e (stage tr)
