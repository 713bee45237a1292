-- ===== src/Handler/Events.antt =====
-- internal/handler/events.go: the progress marks, the result events and their publication.
use geul_asset_optimizer.Base.{◌<>◌, Bool, true, false, Option, none, some, List, ◌∷◌, ℕ}
use geul_asset_optimizer.Base.Int.{ℤ, pos}
use geul_asset_optimizer.Errors.{
  Error, wrap, result_publish_error, terminal_result_error, error_text, ok, err,
}
use geul_asset_optimizer.Contracts.{
  CompressionMethod, FailureReason, Stage, downloading, analyzing, optimizing, uploading,
  MeshOptimizationJob, ProgressEvent, CompleteEvent, FailEvent, get_target,
}
use geul_asset_optimizer.Optimizer.Options.{event_value}
use geul_asset_optimizer.Optimizer.Inspection.{Inspection}
use geul_asset_optimizer.Handler.World.{
  JobFailureReason, job_failed, emitted, warned, progress_published, fail_published, Trace, Env, M,
  raise,
}
use geul_asset_optimizer.Handler.Validation.{MeshJobSpec, clone_identity}

pub record MeshProgress : Type 0 where
  pub sequence : ℤ
  pub percent : ℤ
  pub stage : Stage

abbrev pub download_started : MeshProgress
download_started = record { sequence = pos 1; percent = pos 5; stage = downloading }

abbrev pub analysis_started : MeshProgress
analysis_started = record { sequence = pos 2; percent = pos 25; stage = analyzing }

abbrev pub optimization_started : MeshProgress
optimization_started = record { sequence = pos 3; percent = pos 60; stage = optimizing }

abbrev pub output_analysis_started : MeshProgress
output_analysis_started = record { sequence = pos 4; percent = pos 80; stage = analyzing }

abbrev pub upload_started : MeshProgress
upload_started = record { sequence = pos 5; percent = pos 90; stage = uploading }

abbrev pub optimization_completed : MeshProgress
optimization_completed = record { sequence = pos 6; percent = pos 100; stage = uploading }

pub record PipelineResult : Type 0 where
  pub before : Inspection
  pub after : Inspection
  pub input_size : ℤ
  pub output_size : ℤ
  pub output_sha256 : List ℕ

unfoldable pub telemetry_job_failure_reason : FailureReason → JobFailureReason
telemetry_job_failure_reason FailureReason.rejected = JobFailureReason.rejected
telemetry_job_failure_reason FailureReason.source_not_found = JobFailureReason.source_not_found
telemetry_job_failure_reason FailureReason.download_failed = JobFailureReason.download_failed
telemetry_job_failure_reason FailureReason.optimization_failed =
    JobFailureReason.optimization_failed
telemetry_job_failure_reason FailureReason.upload_failed = JobFailureReason.upload_failed
telemetry_job_failure_reason FailureReason.internal = JobFailureReason.internal
telemetry_job_failure_reason (FailureReason.other n) = JobFailureReason.internal

module _ (env : Env) where
  -- `started` is the trace at which `startedAt` was read.
  unfoldable pub new_complete_event :
      MeshOptimizationJob → MeshJobSpec → PipelineResult → Trace → Trace → CompleteEvent
  new_complete_event job spec result started tr = record {
    job_id = spec.job_id;
    correlation_id = job.correlation_id;
    identity = clone_identity job.identity;
    output = record {
      written = record {
        file_id = (get_target spec.output_target).file_id;
        file_size = result.output_size;
        sha256 = result.output_sha256;
      };
      original_size_bytes = result.input_size;
      optimized_size_bytes = result.output_size;
      compression_method = CompressionMethod.draco;
      target_ratio_percent = spec.options.target_ratio_percent;
      profile = event_value spec.options.profile;
      original_vertex_count = result.before.upload_vertex_count;
      optimized_vertex_count = result.after.upload_vertex_count;
      original_triangle_count = result.before.gl_primitive_count;
      optimized_triangle_count = result.after.gl_primitive_count;
    };
    processing_time_ms = env.since_ms started tr;
    timestamp_ms = env.now_ms tr;
  }

  new_progress_event : MeshOptimizationJob → MeshProgress → Trace → ProgressEvent
  new_progress_event job progress tr = record {
    job_id = job.job_id;
    correlation_id = job.correlation_id;
    identity = clone_identity job.identity;
    sequence_number = progress.sequence;
    progress = progress.percent;
    stage = progress.stage;
    timestamp_ms = env.now_ms tr;
  }

  abbrev pub warn_progress : Option Error → Bool → Trace → Trace
  warn_progress none canceled tr = tr
  warn_progress (some e) true tr = tr
  warn_progress (some e) false tr = warned "Failed to publish mesh optimization progress" ∷ tr

  -- A progress event that cannot be published is never an error of the job.
  unfoldable pub publish_progress : MeshOptimizationJob → MeshProgress → M (Unit {0})
  unfolding new_progress_event
  publish_progress job progress tr =
      let event = new_progress_event job progress tr in
      let e = env.publish_progress tr event in
      let tr' = progress_published event e ∷ tr in
      (ok tt, warn_progress e (env.is_canceled tr') tr')

  unfoldable pub new_fail_event :
      MeshOptimizationJob → Trace → FailureReason → Error → Trace → FailEvent
  new_fail_event job started reason cause tr = record {
    job_id = job.job_id;
    correlation_id = job.correlation_id;
    identity = clone_identity job.identity;
    reason = reason;
    error = error_text cause;
    processing_time_ms = env.since_ms started tr;
    timestamp_ms = env.now_ms tr;
  }

  -- What `publishFail` does after the publication, by its outcome.
  unfoldable pub settle_fail :
      MeshOptimizationJob → Trace → FailureReason → Error → Option Error → M (Unit {0})
  unfolding telemetry_job_failure_reason raise
  settle_fail job started reason cause (some e) tr =
      raise
        (result_publish_error (
          wrap "" cause (
            "; additionally failed to publish mesh optimization failure result: " <> error_text e)))
        tr
  settle_fail job started reason cause none tr = (
    err (terminal_result_error cause),
    emitted (job_failed job.job_id (env.since_ms started tr) (telemetry_job_failure_reason reason))
        ∷ tr,
  )

  unfoldable pub publish_fail : MeshOptimizationJob → Trace → FailureReason → Error → M (Unit {0})
  unfolding new_fail_event settle_fail
  publish_fail job started reason cause tr =
      let event = new_fail_event job started reason cause tr in
      let e = env.publish_fail tr event in
      settle_fail job started reason cause e (fail_published event e ∷ tr)
