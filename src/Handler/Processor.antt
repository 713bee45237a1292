-- ===== src/Handler/Processor.antt =====
-- internal/handler/handler.go: the processor, its construction and the handling of one message.
use geul_asset_optimizer.Base.{Option, none, some, List, ◌∷◌, ℕ}
use geul_asset_optimizer.Base.{◌*◌, Bool, not, if◌then◌else◌}
use geul_asset_optimizer.Base.Int.{ℤ, pos, leb_ℤ}
use geul_asset_optimizer.Base.Text.{trim_space}
use geul_asset_optimizer.Errors.{
  Error, message, wrap, result_publish_error, Result, ok, err, pipeline_failure_reason,
}
use geul_asset_optimizer.Contracts.{rejected, MeshOptimizationJob}
use geul_asset_optimizer.Handler.World.{
  job_started, job_succeeded, span_started, span_failed, span_ended, emitted, complete_published,
  Trace, Env, M, ◌>>◌, raise,
}
use geul_asset_optimizer.Handler.Validation.{MeshJobSpec, new_mesh_job_spec, validate_job_id}
use geul_asset_optimizer.Handler.Events.{
  optimization_completed, PipelineResult, new_complete_event, publish_progress, publish_fail,
}
use geul_asset_optimizer.Handler.Pipeline.{run_pipeline}

abbrev pub default_max_input_bytes : ℤ
default_max_input_bytes = pos (50 * 1024 * 1024)

-- The input limit of a new processor, by its configuration and by which of the work directories, the
-- storage, the optimizer and the publisher it is given.
unfoldable pub new_processor : ℤ → Bool → Bool → Bool → Bool → Result ℤ
new_processor max_input_bytes work_dirs storage mesh_optimizer publisher =
    let limit =
      if leb_ℤ max_input_bytes (pos 0) then default_max_input_bytes else max_input_bytes in
    if not work_dirs
    then err (message "work dir manager is required")
    else if not storage
    then err (message "storage client is required")
    else if not mesh_optimizer
    then err (message "optimizer is required")
    else if not publisher
    then err (message "publisher is required")
    else ok limit

module _ (env : Env) (max_input_bytes : ℤ) where
  unfoldable pub record_success : MeshOptimizationJob → Trace → M (Unit {0})
  record_success job started tr =
      (ok tt, emitted (job_succeeded (trim_space job.job_id) (env.since_ms started tr)) ∷ tr)

  -- What follows a pipeline that succeeded, by the outcome of the publication.
  unfoldable pub settle_complete : MeshOptimizationJob → Trace → Option Error → M (Unit {0})
  unfolding record_success
  settle_complete job started (some e) =
      raise (result_publish_error (wrap "publish complete result: " e ""))
  settle_complete job started none = do
    publish_progress env job optimization_completed
    record_success job started

  unfoldable pub publish_complete :
      MeshOptimizationJob → MeshJobSpec → PipelineResult → Trace → M (Unit {0})
  unfolding settle_complete
  publish_complete job spec result started tr =
      let complete = new_complete_event env job spec result started tr in
      let e = env.publish_complete tr complete in
      settle_complete job started e (complete_published complete e ∷ tr)

  unfoldable pub finish_job :
      MeshOptimizationJob → MeshJobSpec → Trace → Result PipelineResult → M (Unit {0})
  unfolding publish_complete
  finish_job job spec started (ok result) = publish_complete job spec result started
  finish_job job spec started (err e) = publish_fail env job started (pipeline_failure_reason e) e

  unfoldable pub run_job : MeshOptimizationJob → Trace → Result MeshJobSpec → M (Unit {0})
  unfolding finish_job
  run_job job started (err e) tr = publish_fail env job started rejected e tr
  run_job job started (ok spec) tr =
      let (r, tr') = run_pipeline env job spec max_input_bytes tr in
      finish_job job spec started r tr'

  unfoldable pub process_job : MeshOptimizationJob → M (Unit {0})
  unfolding run_job
  process_job job tr =
      run_job job tr (new_mesh_job_spec env.libraries job)
        (emitted (job_started (trim_space job.job_id)) ∷ tr)

  abbrev pub end_span : Result (Unit {0}) → Trace → Result (Unit {0}) × Trace
  end_span (ok u) tr = (ok u, span_ended ∷ tr)
  end_span (err e) tr = (err e, span_ended ∷ span_failed e ∷ tr)

  -- The span around a job: it records the error and ends on every return.
  unfoldable pub trace_span : MeshOptimizationJob → M (Unit {0})
  trace_span job tr =
      let (r, tr') = process_job job (span_started job.job_id ∷ tr) in end_span r tr'

  unfoldable pub handle_valid : MeshOptimizationJob → Result (Unit {0}) → M (Unit {0})
  unfolding trace_span
  handle_valid job (err e) = raise e
  handle_valid job (ok u) = trace_span job

  unfoldable pub handle_parsed : Result MeshOptimizationJob → M (Unit {0})
  unfolding handle_valid
  handle_parsed (err e) = raise (wrap "parse mesh optimization job: " e "")
  handle_parsed (ok job) = handle_valid job (validate_job_id env.libraries job)

  unfoldable pub handle_mesh_job : List ℕ → M (Unit {0})
  unfolding handle_parsed
  handle_mesh_job body = handle_parsed (env.unmarshal_job body)
