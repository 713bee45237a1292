-- ===== src/Handler/Outcome/Settled.antt =====
-- What the handler returns agrees with what it could announce.
use geul_asset_optimizer.Base.{Option, none, some, List, ℕ, [], ◌∷◌, ◌≡◌, refl, arith}
use geul_asset_optimizer.Base.Int.{ℤ}
use geul_asset_optimizer.Errors.{
  error_of, Error, Result, ok, err, IsPlain, IsPlain-as_none, is_terminal_result, is_retryable,
  pipeline_failure_reason,
}
use geul_asset_optimizer.Contracts.{rejected, FailureReason, MeshOptimizationJob}
use geul_asset_optimizer.Handler.World.{span_started, Trace, Env, ◌>>=◌}
use geul_asset_optimizer.Handler.Validation.{MeshJobSpec, validate_job_id}
use geul_asset_optimizer.Handler.Events.{
  PipelineResult, new_complete_event, publish_progress, settle_fail, publish_fail,
  optimization_completed,
}
use geul_asset_optimizer.Handler.Pipeline.{run_pipeline}
use geul_asset_optimizer.Handler.Processor.{
  end_span, record_success, settle_complete, finish_job, run_job, process_job, trace_span,
  handle_valid, handle_parsed, handle_mesh_job,
}
use geul_asset_optimizer.Handler.Outcome.{
  PlainResult, PlainOption, PlainEnv, answer, Announced, Announced-answer, Classified,
}
use geul_asset_optimizer.Handler.Outcome.Tame.{run_pipeline-Tame}
use geul_asset_optimizer.Handler.Outcome.Rejections.{plain-new_mesh_job_spec}

-- The newest announcement and the error returned, of a call's result and trace.
abbrev pub Settled : Env → Result (Unit {0}) × Trace → Type 0
Settled env (r, tr) =
    (outcome : Option Error) × Announced env tr outcome × Classified outcome (error_of r)

module _ (env : Env) (job : MeshOptimizationJob) (started : Trace) where
  settle_fail_settles :
      (reason : FailureReason) (cause : Error) (outcome : Option Error) (tr : Trace)
      → IsPlain cause
      → Announced env tr outcome
      → Settled env (settle_fail env job started reason cause outcome tr)
  unfolding settle_fail is_terminal_result is_retryable
  settle_fail_settles reason cause none tr plain h =
      (none, h, (refl, ground (arith, IsPlain-as_none cause plain)))
  settle_fail_settles reason cause (some e) tr plain h =
      (some e, h, (refl, ground (arith, IsPlain-as_none cause plain), refl))

  publish_fail_settles :
      (reason : FailureReason) (cause : Error) (tr : Trace)
      → IsPlain cause
      → Settled env (publish_fail env job started reason cause tr)
  unfolding publish_fail
  publish_fail_settles reason cause tr plain =
      settle_fail_settles reason cause _ _ plain (refl, refl)

  Announced-publish_progress :
      (tr : Trace) (outcome : Option Error)
      → Announced env tr outcome
      → Announced env (publish_progress env job optimization_completed tr).1 outcome
  unfolding publish_progress
  Announced-publish_progress tr outcome h = ground arith

module _ (env : Env) (plain : PlainEnv env) (max_input_bytes : ℤ) (job : MeshOptimizationJob) where
  settle_complete_settles :
      (started : Trace) (outcome : Option Error) (tr : Trace)
      → PlainOption outcome
      → Announced env tr outcome
      → Settled env (settle_complete env max_input_bytes job started outcome tr)
  unfolding settle_complete record_success publish_progress ◌>>=◌ is_terminal_result is_retryable
  settle_complete_settles started none tr h a =
      (none, Announced-publish_progress env job started tr none a, (refl, refl))
  settle_complete_settles started (some e) tr h a =
      (some e, a, (refl, ground (arith, IsPlain-as_none e h), refl))

  finish_job_settles :
      (spec : MeshJobSpec) (started : Trace) (r : Result PipelineResult) (tr : Trace)
      → PlainResult r
      → Settled env (finish_job env max_input_bytes job spec started r tr)
  unfolding finish_job
  finish_job_settles spec started (ok result) tr h =
      settle_complete_settles started _ _
        (plain.publish_complete tr (new_complete_event env job spec result started tr)) (refl, refl)
  finish_job_settles spec started (err e) tr h =
      publish_fail_settles env job started (pipeline_failure_reason e) e tr h

  run_job_settles :
      (started : Trace) (r : Result MeshJobSpec) (tr : Trace)
      → PlainResult r
      → Settled env (run_job env max_input_bytes job started r tr)
  unfolding run_job
  run_job_settles started (ok spec) tr h =
      finish_job_settles spec started (run_pipeline env job spec max_input_bytes tr).0
        (run_pipeline env job spec max_input_bytes tr).1
        ((run_pipeline-Tame env plain job spec max_input_bytes).at tr)
  run_job_settles started (err e) tr h = publish_fail_settles env job started rejected e tr h

  process_job_settles : (tr : Trace) → Settled env (process_job env max_input_bytes job tr)
  unfolding process_job
  process_job_settles tr = run_job_settles tr _ _ (plain-new_mesh_job_spec env plain job)

  span_settles :
      (r : Result (Unit {0})) (tr : Trace)
      → Settled env (r, tr)
      → Settled env (end_span env max_input_bytes r tr)
  span_settles (ok u) tr h = h
  span_settles (err e) tr h = h

  pub trace_span_settles : (tr : Trace) → Settled env (trace_span env max_input_bytes job tr)
  unfolding trace_span
  trace_span_settles tr =
      span_settles (process_job env max_input_bytes job (span_started job.job_id ∷ tr)).0
        (process_job env max_input_bytes job (span_started job.job_id ∷ tr)).1
        (process_job_settles (span_started job.job_id ∷ tr))

handle_settles_from :
    (env : Env) (max_input_bytes : ℤ) (body : List ℕ) (job : MeshOptimizationJob) (tr : Trace)
    → PlainEnv env
    → env.unmarshal_job body ≡ ok job
    → validate_job_id env.libraries job ≡ ok tt
    → Settled env (handle_mesh_job env max_input_bytes body tr)
unfolding handle_mesh_job handle_parsed handle_valid
handle_settles_from env max_input_bytes body job tr plain parsed valid =
    rw (parsed, handle_mesh_job, valid) (trace_span_settles env plain max_input_bytes job tr)

-- A handler that is given a job with a valid id announces a result, when the errors of the services
-- are plain; and what it returns follows the outcome of the last announcement of this run. Where the
-- announcement succeeded, the delivery is to be acknowledged (no error, or a terminal one) and is
-- not retryable; where it failed, there is an error that is retryable and not terminal.
pub handle_mesh_job_settles :
    (env : Env) (max_input_bytes : ℤ) (body : List ℕ) (job : MeshOptimizationJob)
    → PlainEnv env
    → env.unmarshal_job body ≡ ok job
    → validate_job_id env.libraries job ≡ ok tt
    → let (r, tr) = handle_mesh_job env max_input_bytes body [] in
      (outcome : Option Error) × (answer tr ≡ some outcome) × Classified outcome (error_of r)
handle_mesh_job_settles env max_input_bytes body job plain parsed valid =
    let (outcome, announced, classified) =
      handle_settles_from env max_input_bytes body job [] plain parsed valid in
    (
      outcome,
      Announced-answer env (handle_mesh_job env max_input_bytes body []).1 outcome announced,
      classified,
    )
