-- ===== src/Handler/Protocol/Steps.antt =====
-- Each part of the pipeline keeps the protocol.
use geul_asset_optimizer.Base.{String, Bool, true, false, arith}
use geul_asset_optimizer.Base.Int.{ℤ}
use geul_asset_optimizer.Contracts.{FailureReason, MeshOptimizationJob}
use geul_asset_optimizer.Errors.{Error}
use geul_asset_optimizer.Handler.World.{Trace, Env, M}
use geul_asset_optimizer.Handler.Validation.{MeshJobSpec}
use geul_asset_optimizer.Handler.Events.{MeshProgress, publish_progress, publish_fail}
use geul_asset_optimizer.Handler.Pipeline.{
  DownloadedSource, file_sha256, download_source, optimize_source, get_object_size, download,
  stat_file, inspect, optimize, upload,
}
use geul_asset_optimizer.Optimizer.Options.{Options}
use geul_asset_optimizer.Handler.Protocol.Moves.{Moves, moves_rules}
use geul_asset_optimizer.Handler.Protocol.{running, answered, holding, phase}

module _ (env : Env) (job : MeshOptimizationJob) where
  pub publish_progress_held :
      (progress : MeshProgress) (dir : String) (stored : Bool)
      → let p = holding dir stored in Moves p p p (publish_progress env job progress)
  unfolding phase publish_progress
  publish_progress_held progress dir stored = record { at = λ tr h. ground arith }

  pub publish_progress_answered :
      (progress : MeshProgress)
      → Moves answered answered answered (publish_progress env job progress)
  unfolding phase publish_progress
  publish_progress_answered progress = record { at = λ tr h. ground arith }

  pub publish_fail_answers :
      (started : Trace) (reason : FailureReason) (cause : Error)
      → Moves running answered answered (publish_fail env job started reason cause)
  unfolding phase publish_fail
  publish_fail_answers started reason cause = record { at = λ tr h. ground arith }

module _ (env : Env) (dir : String) where
  abbrev Held : {A : Type 0} → M A → Type 0
  Held m = Moves (holding dir false) (holding dir false) (holding dir false) m

  file_sha256-Held : (path : String) → Held (file_sha256 env path)
  unfolding phase file_sha256
  file_sha256-Held path = record { at = λ tr h. ground arith }

  get_object_size-Held : (key : String) → Held (get_object_size env key)
  unfolding phase get_object_size
  get_object_size-Held key = record { at = λ tr h. ground arith }

  download-Held : (key path : String) → Held (download env key path)
  unfolding phase download
  download-Held key path = record { at = λ tr h. ground arith }

  stat_file-Held : (path : String) → Held (stat_file env path)
  unfolding phase stat_file
  stat_file-Held path = record { at = λ tr h. ground arith }

  inspect-Held : (path : String) → Held (inspect env path)
  unfolding phase inspect
  inspect-Held path = record { at = λ tr h. ground arith }

  optimize-Held :
      (input output : String) (options : Options) → Held (optimize env input output options)
  unfolding phase optimize
  optimize-Held input output options = record { at = λ tr h. ground arith }

  upload_stores :
      (key path mime_type : String)
      → Moves
          (holding dir false)
          (holding dir true)
          (holding dir false)
          (upload env key path mime_type)
  unfolding phase upload
  upload_stores key path mime_type = record { at = λ tr h. ground arith }

ruleset call_rules = (
  publish_progress_held, file_sha256-Held, get_object_size-Held, download-Held, stat_file-Held,
  inspect-Held, optimize-Held, upload_stores,
)

module _ (env : Env) (job : MeshOptimizationJob) (spec : MeshJobSpec) (dir : String) where
  pub download_source-Held :
      (max_input_bytes : ℤ) → Held env dir (download_source env job spec dir max_input_bytes)
  unfolding download_source
  download_source-Held max_input_bytes = search (moves_rules, call_rules) depth 12

  pub optimize_source_stores :
      (source : DownloadedSource)
      → Moves
          (holding dir false)
          (holding dir true)
          (holding dir false)
          (optimize_source env job spec dir source)
  unfolding optimize_source
  optimize_source_stores source = search (moves_rules, call_rules) depth 20
