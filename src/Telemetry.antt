-- ===== src/Telemetry.antt =====
-- internal/telemetry/telemetry.go: the set-up of the exporters and its undoing. The exporters and
-- providers are the OpenTelemetry library's.
pub mod System
use geul_asset_optimizer.Base.{
  ℕ, ◌+◌, zero, suc, String, ap, ◌∙◌, Option, none, some, List, [], ◌∷◌, ◌≡◌, refl, arith,
}
use geul_asset_optimizer.Errors.{Error, wrap, join, Result, ok, err}

pub data Event : Type 0 where
  resource_made : String → Option Error → Event
  trace_exporter_made : Option Error → Event
  trace_provider_made : Event
  log_exporter_made : Option Error → Event
  log_provider_made : Event
  providers_set : Event
  log_provider_shut_down : Option Error → Event
  trace_provider_shut_down : Option Error → Event

abbrev pub Trace : Type 0
Trace = List Event

pub record Env : Type 0 where
  -- `sharedtelemetry.ParseServiceName`, by its canonical text
  pub parse_service_name : String → Result String
  pub new_resource : Trace → String → Option Error
  pub new_trace_exporter : Trace → Option Error
  pub new_log_exporter : Trace → Option Error
  pub shutdown_log_provider : Trace → Option Error
  pub shutdown_tracer : Trace → Option Error

-- `errors.Join` of two errors that may be nil. Joined with nil, an error keeps its text and its type
-- for `errors.As`, and is written as itself.
unfoldable pub join_errors : Option Error → Option Error → Option Error
join_errors none b = b
join_errors (some a) none = some a
join_errors (some a) (some b) = some (join a b)

abbrev pub wrap_error : String → Option Error → Option Error
wrap_error before none = none
wrap_error before (some e) = some (wrap before e "")

module _ (env : Env) where
  unfoldable pub shutdown_trace_provider : Trace → Option Error × Trace
  shutdown_trace_provider tr =
      let e = env.shutdown_tracer tr in
      (wrap_error "trace shutdown: " e, trace_provider_shut_down e ∷ tr)

  -- The function that the result of the set-up holds.
  unfoldable pub shutdown : Trace → Option Error × Trace
  unfolding shutdown_trace_provider join_errors
  shutdown tr =
      let e = env.shutdown_log_provider tr in
      let (f, tr') = shutdown_trace_provider (log_provider_shut_down e ∷ tr) in
      (join_errors e f, tr')

  -- The error of the set-up, `none` if it succeeded.
  unfoldable pub with_log_exporter : Option Error → Trace → Option Error × Trace
  unfolding shutdown_trace_provider join_errors
  with_log_exporter (some e) tr =
      let (f, tr') = shutdown_trace_provider (log_exporter_made (some e) ∷ tr) in
      (join_errors (wrap_error "create OTLP log exporter: " (some e)) f, tr')
  with_log_exporter none tr =
      (none, providers_set ∷ log_provider_made ∷ log_exporter_made none ∷ tr)

  unfoldable pub with_trace_exporter : Option Error → Trace → Option Error × Trace
  unfolding with_log_exporter
  with_trace_exporter (some e) tr =
      (wrap_error "create OTLP trace exporter: " (some e), trace_exporter_made (some e) ∷ tr)
  with_trace_exporter none tr =
      let tr' = trace_provider_made ∷ trace_exporter_made none ∷ tr in
      with_log_exporter (env.new_log_exporter tr') tr'

  unfoldable pub with_resource : String → Option Error → Trace → Option Error × Trace
  unfolding with_trace_exporter
  with_resource name (some e) tr =
      (wrap_error "create telemetry resource: " (some e), resource_made name (some e) ∷ tr)
  with_resource name none tr =
      let tr' = resource_made name none ∷ tr in with_trace_exporter (env.new_trace_exporter tr') tr'

  unfoldable pub with_name : Result String → Trace → Option Error × Trace
  unfolding with_resource
  with_name (err e) tr = (some e, tr)
  with_name (ok name) tr = with_resource name (env.new_resource tr name) tr

  unfoldable pub init_with_dependencies : String → Trace → Option Error × Trace
  unfolding with_name
  init_with_dependencies service_name tr = with_name (env.parse_service_name service_name) tr

-- The options of `resource.New`: the environment, the host, and fixed attributes.
pub data ResourceOption : Type 0 where
  with_from_env with_host : ResourceOption
  with_attributes : List (String × String) → ResourceOption

-- The attributes come last, so that they win over the environment.
unfoldable pub new_canonical_resource : (List ResourceOption → Option Error) → String → Option Error
new_canonical_resource new_resource service_name =
    new_resource
      (with_from_env ∷ with_host ∷ with_attributes (("service.name", service_name) ∷ []) ∷ [])

-- `Init`, whose resource is the canonical one; the first argument is `resource.New`.
unfoldable pub init :
    (Trace → List ResourceOption → Option Error) → Env → String → Trace → Option Error × Trace
unfolding init_with_dependencies new_canonical_resource
init new_resource env =
    init_with_dependencies
      (record env { new_resource = λ tr. new_canonical_resource (new_resource tr) })

pub data Provider : Type 0 where
  traces logs : Provider

pub data Change : Type 0 where
  starts stops same : Change

-- What an event does to a provider.
abbrev pub change : Provider → Event → Change
change traces trace_provider_made = starts
change traces (trace_provider_shut_down e) = stops
change logs log_provider_made = starts
change logs (log_provider_shut_down e) = stops
change provider _ = same

abbrev pub count_change : Change → Option ℕ → Option ℕ
count_change c none = none
count_change starts (some n) = some (suc n)
count_change stops (some zero) = none
count_change stops (some (suc n)) = some n
count_change same (some n) = some n

-- How many of a kind of provider run after the events; `none` if one was shut down that did not run.
unfoldable pub running : Provider → Trace → Option ℕ
running provider [] = some 0
running provider (e ∷ tr) = count_change (change provider e) (running provider tr)

-- The set-up started one provider of each kind, or failed and left none running.
abbrev pub started : Option Error → ℕ
started none = 1
started (some e) = 0

module _ (env : Env) where
  shutdown-running :
      (provider : Provider) (n : ℕ) (tr : Trace)
      → running provider tr ≡ some (suc n)
      → running provider (shutdown env tr).1 ≡ some n
  unfolding shutdown shutdown_trace_provider running
  shutdown-running traces n tr h = rw h refl
  shutdown-running logs n tr h = rw h refl

  started_none : (e : Error) (f : Option Error) → started (join_errors (some e) f) ≡ 0
  unfolding join_errors
  started_none e none = refl
  started_none e (some f) = refl

  log_exporter-running :
      (provider : Provider) (e : Option Error) (n : ℕ) (tr : Trace)
      → running provider tr ≡ some n
      → running provider (with_log_exporter env e (trace_provider_made ∷ tr)).1
        ≡ some (n + started (with_log_exporter env e (trace_provider_made ∷ tr)).0)
  unfolding with_log_exporter shutdown_trace_provider running
  log_exporter-running traces none n tr h = rw h (ground arith)
  log_exporter-running logs none n tr h = rw h (ground arith)
  log_exporter-running traces (some e) n tr h = rw (h, started_none) (ground arith)
  log_exporter-running logs (some e) n tr h = rw (h, started_none) (ground arith)

  unchanged : (n : ℕ) → some n ≡ some (n + 0)
  unchanged n = ground arith

  trace_exporter-running :
      (provider : Provider) (e : Option Error) (n : ℕ) (tr : Trace)
      → running provider tr ≡ some n
      → running provider (with_trace_exporter env e tr).1
        ≡ some (n + started (with_trace_exporter env e tr).0)
  unfolding with_trace_exporter running
  trace_exporter-running traces none n tr h =
      log_exporter-running traces (env.new_log_exporter _) n _ (rw h refl)
  trace_exporter-running logs none n tr h =
      log_exporter-running logs (env.new_log_exporter _) n _ (rw h refl)
  trace_exporter-running traces (some e) n tr h = rw h (unchanged n)
  trace_exporter-running logs (some e) n tr h = rw h (unchanged n)

  resource-running :
      (provider : Provider) (name : String) (e : Option Error) (n : ℕ) (tr : Trace)
      → running provider tr ≡ some n
      → running provider (with_resource env name e tr).1
        ≡ some (n + started (with_resource env name e tr).0)
  unfolding with_resource running
  resource-running traces name none n tr h = trace_exporter-running traces _ n _ (rw h refl)
  resource-running logs name none n tr h = trace_exporter-running logs _ n _ (rw h refl)
  resource-running traces name (some e) n tr h = rw h (unchanged n)
  resource-running logs name (some e) n tr h = rw h (unchanged n)

  name-running :
      (provider : Provider) (name : Result String) (n : ℕ) (tr : Trace)
      → running provider tr ≡ some n
      → running provider (with_name env name tr).1 ≡ some (n + started (with_name env name tr).0)
  unfolding with_name
  name-running provider (ok name) n tr h = resource-running provider name _ n tr h
  name-running provider (err e) n tr h = rw h (unchanged n)

  started_all :
      (r : Option Error) (n : ℕ) (k : Option ℕ)
      → k ≡ some (n + started r)
      → r ≡ none
      → k ≡ some (suc n)
  started_all none n k h e = h ∙ ap some (omega arith)
  started_all (some x) n k h e = cc

  -- A set-up that succeeds starts one trace provider and one log provider, and one that fails leaves
  -- none of its own running; the shutdown that a successful one returns stops both, whatever it
  -- returns itself. Neither shuts down a provider that does not run.
  pub init-running :
      (provider : Provider) (service_name : String) (n : ℕ) (tr : Trace)
      → running provider tr ≡ some n
      → let r = init_with_dependencies env service_name tr in
        (running provider r.1 ≡ some (n + started r.0))
        × (r.0 ≡ none → running provider (shutdown env r.1).1 ≡ some n)
  unfolding init_with_dependencies
  init-running provider service_name n tr h =
      let name = env.parse_service_name service_name in
      let after = name-running provider name n tr h in
      (
        after,
        λ fine.
            shutdown-running provider n _ (started_all (with_name env name tr).0 n _ after fine),
      )
