-- ===== src/Handler/Outcome/Succeeded.antt =====
-- internal/handler/handler.go: what stands behind a handler that returns no error.
use geul_asset_optimizer.Base.{ℕ, Bool, true, false, Option, none, some, List, ◌∷◌, ◌≡◌, refl}
use geul_asset_optimizer.Base.Int.{ℤ}
use geul_asset_optimizer.Errors.{Error, Result, ok, err}
use geul_asset_optimizer.Contracts.{FailureReason, MeshOptimizationJob, CompleteEvent}
use geul_asset_optimizer.Handler.World.{Event, complete_published, Trace, Env, ◌>>=◌, raise}
use geul_asset_optimizer.Handler.Validation.{MeshJobSpec, new_mesh_job_spec}
use geul_asset_optimizer.Handler.Events.{
  PipelineResult, new_complete_event, publish_progress, warn_progress, publish_fail, settle_fail,
}
use geul_asset_optimizer.Handler.Pipeline.{run_pipeline}
use geul_asset_optimizer.Handler.Pipeline.Evidence.{Earlier, newest_one, one_later}
use geul_asset_optimizer.Handler.Processor.{
  record_success, settle_complete, publish_complete, finish_job, run_job, process_job, end_span,
  trace_span, handle_valid, handle_parsed, handle_mesh_job,
}

module _ (env : Env) (max_input_bytes : ℤ) where
  -- The job was accepted, its pipeline gave a result, and the event that is made of it was published,
  -- before the trace ended with `tr`, and was accepted.
  pub record Succeeded (job : MeshOptimizationJob) (tr : Trace) : Type 0 where
    pub spec : MeshJobSpec
    pub accepted : new_mesh_job_spec env.libraries job ≡ ok spec
    pub before : Trace
    pub result : PipelineResult
    pub delivered : (run_pipeline env job spec max_input_bytes before).0 ≡ ok result
    pub started : Trace
    pub replied :
        (let at = (run_pipeline env job spec max_input_bytes before).1 in
          env.publish_complete at (new_complete_event env job spec result started at) ≡ none)
    pub announced :
        (let at = (run_pipeline env job spec max_input_bytes before).1 in
          Earlier
            (complete_published (new_complete_event env job spec result started at) none)
            at
            tr)

  module _ (job : MeshOptimizationJob) (started : Trace) where
    settle_fail_fails :
        (reason : FailureReason) (cause : Error) (e : Option Error) (tr : Trace)
        → (settle_fail env job started reason cause e tr).0 ≡ ok tt
        → ⊥
    unfolding settle_fail raise
    settle_fail_fails reason cause none tr h = cc
    settle_fail_fails reason cause (some e) tr h = cc

    publish_fail_fails :
        (reason : FailureReason) (cause : Error) (tr : Trace)
        → (publish_fail env job started reason cause tr).0 ≡ ok tt
        → ⊥
    unfolding publish_fail
    publish_fail_fails reason cause tr h = settle_fail_fails reason cause _ _ h

    warned_Earlier :
        (event : Event) (older tr : Trace) (e : Option Error) (canceled : Bool)
        → Earlier event older tr
        → Earlier event older (warn_progress env e canceled tr)
    warned_Earlier event older tr none canceled h = h
    warned_Earlier event older tr (some e) true h = h
    warned_Earlier event older tr (some e) false h = one_later _ tr h

    settled :
        (complete : CompleteEvent) (e : Option Error) (at : Trace)
        → (settle_complete env max_input_bytes job started e (complete_published complete e ∷ at)).0
          ≡ ok tt
        → (e ≡ none)
          × Earlier
              (complete_published complete none)
              at
              (settle_complete env max_input_bytes job started e
                (complete_published complete e ∷ at)).1
    unfolding settle_complete record_success publish_progress ◌>>=◌ raise
    settled complete none at h = (
      refl,
      one_later _ _ (
          warned_Earlier _ at _ _ _
            (one_later _ (complete_published complete none ∷ at) newest_one)),
    )
    settled complete (some e) at h = cc

    finished :
        (spec : MeshJobSpec) (r : Result PipelineResult) (at : Trace)
        → (finish_job env max_input_bytes job spec started r at).0 ≡ ok tt
        → (result : PipelineResult) × (r ≡ ok result)
          × (env.publish_complete at (new_complete_event env job spec result started at) ≡ none)
          × Earlier
              (complete_published (new_complete_event env job spec result started at) none)
              at
              (finish_job env max_input_bytes job spec started r at).1
    unfolding finish_job publish_complete
    finished spec (ok result) at h =
        let (replied, announced) = settled _ _ at h in (result, refl, replied, announced)
    finished spec (err e) at h = absurd (publish_fail_fails _ e at h)

    ran :
        (read : Result MeshJobSpec) (tr : Trace)
        → new_mesh_job_spec env.libraries job ≡ read
        → (run_job env max_input_bytes job started read tr).0 ≡ ok tt
        → Succeeded job (run_job env max_input_bytes job started read tr).1
    unfolding run_job
    ran (err e) tr valid h = absurd (publish_fail_fails _ e tr h)
    ran (ok spec) tr valid h =
        let (result, delivered, replied, announced) = finished spec _ _ h in
        record {
          spec = spec;
          accepted = valid;
          before = tr;
          result = result;
          delivered = delivered;
          started = started;
          replied = replied;
          announced = announced;
        }

  Succeeded-later :
      (job : MeshOptimizationJob) (newest : Event) (tr : Trace)
      → Succeeded job tr
      → Succeeded job (newest ∷ tr)
  Succeeded-later job newest tr s = record {
    spec = s.spec;
    accepted = s.accepted;
    before = s.before;
    result = s.result;
    delivered = s.delivered;
    started = s.started;
    replied = s.replied;
    announced = one_later newest tr s.announced;
  }

  span_Succeeded :
      (job : MeshOptimizationJob) (r : Result (Unit {0})) (tr : Trace)
      → (r ≡ ok tt → Succeeded job tr)
      → (end_span env max_input_bytes r tr).0 ≡ ok tt
      → Succeeded job (end_span env max_input_bytes r tr).1
  span_Succeeded job (ok u) tr s h = Succeeded-later job _ tr (s h)
  span_Succeeded job (err e) tr s h = cc

  valid_Succeeded :
      (job : MeshOptimizationJob) (valid : Result (Unit {0})) (tr : Trace)
      → (handle_valid env max_input_bytes job valid tr).0 ≡ ok tt
      → Succeeded job (handle_valid env max_input_bytes job valid tr).1
  unfolding handle_valid trace_span process_job raise
  valid_Succeeded job (ok u) tr h = span_Succeeded job _ _ (λ done. ran job _ _ _ refl done) h
  valid_Succeeded job (err e) tr h = cc

  parsed_Succeeded :
      (parsed : Result MeshOptimizationJob) (tr : Trace)
      → (handle_parsed env max_input_bytes parsed tr).0 ≡ ok tt
      → (job : MeshOptimizationJob) × (parsed ≡ ok job)
        × Succeeded job (handle_parsed env max_input_bytes parsed tr).1
  unfolding handle_parsed raise
  parsed_Succeeded (ok job) tr h = (job, refl, valid_Succeeded job _ tr h)
  parsed_Succeeded (err e) tr h = cc

  pub handle_mesh_job-Succeeded :
      (body : List ℕ) (tr : Trace)
      → (handle_mesh_job env max_input_bytes body tr).0 ≡ ok tt
      → (job : MeshOptimizationJob) × (env.unmarshal_job body ≡ ok job)
        × Succeeded job (handle_mesh_job env max_input_bytes body tr).1
  unfolding handle_mesh_job
  handle_mesh_job-Succeeded body tr h = parsed_Succeeded (env.unmarshal_job body) tr h
