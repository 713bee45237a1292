-- ===== src/Delivery.antt =====
-- A delivery from end to end: the consumer of internal/mq with the processor of internal/handler as
-- its handler, which cmd/asset-optimizer/main.go puts together.
pub mod Enqueued
pub mod Serial
pub mod Tidy
pub mod Produced
pub mod Honest
use geul_asset_optimizer.Base.{ℕ, none, some, List, [], ◌∷◌, ◌≡◌}
use geul_asset_optimizer.Base.Int.{ℤ}
use geul_asset_optimizer.Errors.{error_of, ok}
use geul_asset_optimizer.Jobs.{QueueConfig}
use geul_asset_optimizer.Handler.World
use geul_asset_optimizer.Handler.Processor.{handle_mesh_job}
use geul_asset_optimizer.Handler.Outcome.{PlainEnv, answer}
use geul_asset_optimizer.Handler.Outcome.Acknowledged.{acknowledged_announced}
use geul_asset_optimizer.Mq.World.{Message, Trace, Env}
use geul_asset_optimizer.Mq.Consumer.{process}
use geul_asset_optimizer.Mq.Consumer.Dispositions.{done, dispositions}
use geul_asset_optimizer.Mq.Consumer.Policy.{process_completes_only}

-- `deps.newConsumer(mqConn, queueConfig, processor.HandleMeshJob)`: the services of each run are
-- those at the time of the delivery.
abbrev pub Handles : Env → ℤ → (Trace → World.Env) → Type 0
Handles env max_input_bytes services =
    (tr : Trace) (body : List ℕ)
    → env.handler tr body ≡ error_of (handle_mesh_job (services tr) max_input_bytes body []).0

-- When the consumer's handler is the processor, and the errors of its services are plain: a command
-- is completed, that is taken off its queue, only if the processor ran on its payload and the last
-- result that it announced was accepted by the result queue.
pub completed_means_announced :
    (env : Env) (config : QueueConfig) (msg : Message) (tr : Trace) (max_input_bytes : ℤ)
    (services : Trace → World.Env)
    → Handles env max_input_bytes services
    → ((at : Trace) → PlainEnv (services at))
    → dispositions (process env config msg tr) ≡ done msg.transport_id ∷ dispositions tr
    → (body : List ℕ) × (env.payload msg.envelope ≡ ok body)
      × (answer (handle_mesh_job (services tr) max_input_bytes body []).1 ≡ some none)
completed_means_announced env config msg tr max_input_bytes services handles plain h =
    let (accepted, (body, read, fine, live)) = process_completes_only env config msg tr h in
    (
      body,
      read,
      acknowledged_announced (services tr) (plain tr) max_input_bytes body
          (rw (handles tr body) at fine),
    )
