-- ===== src/Handler/World.antt =====
-- What the processor of internal/handler talks to: the interfaces of handler.go (WorkDirManager,
-- StorageClient, MeshOptimizer, EventPublisher), the files it reads itself, the clock, the
-- telemetry and the log. Each call is written to a trace, newest first, with its reply; the reply is
-- a function of the call and of the whole trace before it, so that nothing is assumed of the order
-- or the number of failures. What the libraries compute without effects is `Libraries`.
use geul_asset_optimizer.Base.{ℕ, String, Bool, Option, List}
use geul_asset_optimizer.Base.Int.{ℤ}
use geul_asset_optimizer.Errors.{Error, Result}
use geul_asset_optimizer.Effects
unfoldable pub use geul_asset_optimizer.Effects.{pure, raise, ◌>>=◌}
pub use geul_asset_optimizer.Effects.{◌>>◌, continue, as_result}
use geul_asset_optimizer.Contracts.{MeshOptimizationJob, ProgressEvent, CompleteEvent, FailEvent}
use geul_asset_optimizer.Optimizer.Options.{Options}
use geul_asset_optimizer.Optimizer.Inspection.{Inspection}

pub record Libraries : Type 0 where
  -- `proto.Unmarshal` of a job
  pub unmarshal_job : List ℕ → Result MeshOptimizationJob
  -- `uuid.Parse`, by whether it succeeds
  pub is_uuid : String → Bool
  -- `mediaauth.MediaObjectKey`
  pub media_object_key : String → String → Result String
  -- `sha256`
  pub sha256 : List ℕ → List ℕ

-- The failure reasons of the telemetry library that the source names.
pub data JobFailureReason : Type 0 where
  rejected source_not_found download_failed optimization_failed upload_failed : JobFailureReason
  internal : JobFailureReason

pub data SystemRecord : Type 0 where
  job_started : String → SystemRecord
  job_succeeded : String → ℤ → SystemRecord
  job_failed : String → ℤ → JobFailureReason → SystemRecord

pub data Event : Type 0 where
  span_started : String → Event
  span_failed : Error → Event
  span_ended : Event
  emitted : SystemRecord → Event
  warned : String → Event
  progress_published : ProgressEvent → Option Error → Event
  complete_published : CompleteEvent → Option Error → Event
  fail_published : FailEvent → Option Error → Event
  work_dir_created : String → Result String → Event
  work_dir_cleaned : String → Option Error → Event
  object_sized : String → Result ℤ → Event
  downloaded : String → String → Option Error → Event
  file_statted : String → Result ℤ → Event
  inspected : String → Result Inspection → Event
  optimized : String → String → Options → Option Error → Event
  file_opened : String → Option Error → Event
  file_hashed : String → Result (List ℕ) → Event
  file_closed : String → Event
  uploaded : String → String → String → Option Error → Event

abbrev pub Trace : Type 0
Trace = List Event

pub record Env : Type 0 where
  pub libraries : Libraries
  pub open libraries use *
  pub create_job_work_dir : Trace → String → Result String
  pub cleanup_job_work_dir : Trace → String → Option Error
  pub get_object_size : Trace → String → Result ℤ
  pub download : Trace → String → String → Option Error
  pub upload : Trace → String → String → String → Option Error
  pub inspect : Trace → String → Result Inspection
  pub optimize : Trace → String → String → Options → Option Error
  pub publish_progress : Trace → ProgressEvent → Option Error
  pub publish_complete : Trace → CompleteEvent → Option Error
  pub publish_fail : Trace → FailEvent → Option Error
  -- `os.Stat`, by the size of the file
  pub stat_file : Trace → String → Result ℤ
  pub open_file : Trace → String → Option Error
  -- `io.Copy` out of the open file, by the bytes that it copies
  pub copy_stream : Trace → String → Result (List ℕ)
  -- `time.Now().UnixMilli()`
  pub now_ms : Trace → ℤ
  -- `time.Since(startedAt).Milliseconds()`, for the trace at which `startedAt` was read
  pub since_ms : Trace → Trace → ℤ
  -- `errors.Is(ctx.Err(), context.Canceled)`
  pub is_canceled : Trace → Bool

-- A stateful call that returns a value and an error.
abbrev pub M : Type 0 → Type 0
M A = Effects.M Event A
