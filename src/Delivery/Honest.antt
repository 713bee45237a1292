-- ===== src/Delivery/Honest.antt =====
-- What a command that left its queue means: the consumer of internal/mq with the processor of
-- internal/handler, and below it the tools of internal/optimizer and the store of internal/storage.
use geul_asset_optimizer.Base.{
  ℕ, String, true, List, [], ◌∷◌, ◌≡◌, refl, ◌⊎◌, inl, inr, is_none, ◌||◌,
}
use geul_asset_optimizer.Base.Int.{ℤ}
use geul_asset_optimizer.Errors.{Result, error_of, ok, err, is_terminal_result}
use geul_asset_optimizer.Contracts.{MeshOptimizationJob}
use geul_asset_optimizer.Jobs.{QueueConfig}
use geul_asset_optimizer.Optimizer.Cli
use geul_asset_optimizer.Storage
use geul_asset_optimizer.Handler.World
use geul_asset_optimizer.Handler.Pipeline.{run_pipeline}
use geul_asset_optimizer.Handler.Processor.{handle_mesh_job}
use geul_asset_optimizer.Handler.Outcome.{PlainEnv}
use geul_asset_optimizer.Handler.Outcome.Failed.{Failed, handle_mesh_job-Failed}
use geul_asset_optimizer.Handler.Outcome.Succeeded.{Succeeded, handle_mesh_job-Succeeded}
use geul_asset_optimizer.Mq.World.{Message, Trace, Env}
use geul_asset_optimizer.Mq.Consumer.{process}
use geul_asset_optimizer.Mq.Consumer.Dispositions.{done, dispositions}
use geul_asset_optimizer.Mq.Consumer.Policy.{process_completes_only}
use geul_asset_optimizer.Delivery.{Handles}
use geul_asset_optimizer.Delivery.Produced.{Equips, Produced, run_pipeline-Produced}

no_error_or_terminal :
    (r : Result (Unit {0}))
    → (is_none (error_of r) || is_terminal_result (error_of r)) ≡ true
    → (r ≡ ok tt) ⊎ (is_terminal_result (error_of r) ≡ true)
no_error_or_terminal (ok u) h = inl refl
no_error_or_terminal (err e) h = inr h

module _ (services : World.Env) (tools : Cli.Env) (cli : Cli.Cli) (store : Storage.Env)
    (bucket : String) (max_input_bytes : ℤ) where
  -- The model of a job was produced, and the event made of its statistics and its digest was accepted.
  pub record IsHonest (body : List ℕ) (tr : World.Trace) : Type 0 where
    pub job : MeshOptimizationJob
    pub parsed : services.unmarshal_job body ≡ ok job
    pub succeeded : Succeeded services max_input_bytes job tr
    pub dir : String
    pub produced :
        Produced services tools cli store bucket succeeded.spec dir succeeded.result
          (run_pipeline services job succeeded.spec max_input_bytes succeeded.before).1

  no_error-IsHonest :
      (body : List ℕ)
      → Equips services tools cli store bucket
      → (handle_mesh_job services max_input_bytes body []).0 ≡ ok tt
      → IsHonest body (handle_mesh_job services max_input_bytes body []).1
  no_error-IsHonest body equips h =
      let (job, parsed, succeeded) = handle_mesh_job-Succeeded services max_input_bytes body [] h in
      let (dir, produced) =
        run_pipeline-Produced services tools cli store bucket equips job succeeded.spec
          max_input_bytes succeeded.before succeeded.result succeeded.delivered in
      record { job = job; parsed = parsed; succeeded = succeeded; dir = dir; produced = produced }

-- When the consumer's handler is the processor, on the command line tools and the object store, and
-- the errors of its services are plain: a command is completed, that is taken off its queue, only if its
-- job was accepted, its model was produced and stored, and the event of the statistics that the tools
-- printed was accepted by the publisher; or its job was refused or its pipeline failed, and the event
-- of that failure, with its reason and its cause, was accepted.
pub completed_means-IsHonest :
    (env : Env) (config : QueueConfig) (msg : Message) (tr : Trace) (max_input_bytes : ℤ)
    (services : Trace → World.Env) (tools : Cli.Env) (cli : Cli.Cli) (store : Storage.Env)
    (bucket : String)
    → Handles env max_input_bytes services
    → ((at : Trace) → PlainEnv (services at))
    → ((at : Trace) → Equips (services at) tools cli store bucket)
    → dispositions (process env config msg tr) ≡ done msg.transport_id ∷ dispositions tr
    → (body : List ℕ) × (env.payload msg.envelope ≡ ok body)
      × (IsHonest
            (services tr)
            tools
            cli
            store
            bucket
            max_input_bytes
            body
            (handle_mesh_job (services tr) max_input_bytes body []).1
          ⊎ ((job : MeshOptimizationJob) × ((services tr).unmarshal_job body ≡ ok job)
              × Failed
                  (services tr)
                  max_input_bytes
                  job
                  (handle_mesh_job (services tr) max_input_bytes body []).1))
completed_means-IsHonest env config msg tr max_input_bytes services tools cli store bucket handles
      plain equips h =
    let (accepted, (body, read, fine, live)) = process_completes_only env config msg tr h in
    let run = handle_mesh_job (services tr) max_input_bytes body [] in
    let ended : (is_none (error_of run.0) || is_terminal_result (error_of run.0)) ≡ true =
      rw (handles tr body) at fine in
    (
      body,
      read,
      elim (no_error_or_terminal run.0 ended) [
        | inl fine_run ↦ inl (
            no_error-IsHonest (services tr) tools cli store bucket max_input_bytes body (equips tr)
              fine_run)
        | inr terminal ↦
            inr (handle_mesh_job-Failed (services tr) max_input_bytes (plain tr) body [] terminal)
      ],
    )
