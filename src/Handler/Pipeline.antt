-- ===== src/Handler/Pipeline.antt =====
-- internal/handler/pipeline.go
pub mod Evidence
pub mod Delivered
pub mod Atomic
use geul_asset_optimizer.Base.{Option, String, ◌<>◌, none, some, List, ◌∷◌, ℕ, if◌then◌else◌}
use geul_asset_optimizer.Base.Int.{ℤ, pos, negsuc, ltb_ℤ}
use geul_asset_optimizer.Base.FilePath.{join_path}
use geul_asset_optimizer.Errors.{Result, Error, message, wrap, pipeline_failure, ok, err}
use geul_asset_optimizer.Contracts.{
  FailureReason, source_not_found, download_failed, optimization_failed, upload_failed, internal,
  rejected, MeshOptimizationJob, get_target,
}
use geul_asset_optimizer.Optimizer.Options.{Options}
use geul_asset_optimizer.Optimizer.Options.Decimal.{print_nat, print_ℤ}
use geul_asset_optimizer.Optimizer.Inspection.{Inspection}
use geul_asset_optimizer.Handler.World.{
  Trace, warned, work_dir_created, work_dir_cleaned, object_sized, downloaded, file_statted,
  inspected, optimized, file_opened, file_hashed, file_closed, uploaded, Env, M, ◌>>=◌, ◌>>◌, pure,
  raise, as_result,
}
use geul_asset_optimizer.Handler.Validation.{MeshJobSpec}
use geul_asset_optimizer.Handler.Events.{
  download_started, analysis_started, optimization_started, output_analysis_started, upload_started,
  PipelineResult, publish_progress,
}

pub record DownloadedSource : Type 0 where
  pub path : String
  pub size : ℤ

abbrev pub pipeline_failed : FailureReason → String → Error → Error
pipeline_failed reason operation e = pipeline_failure reason (wrap (operation <> ": ") e "")

-- `pipelineRejected("… is %d bytes; max is %d", size, limit)`
unfoldable pub pipeline_rejected : String → ℤ → ℤ → Error
unfolding print_nat
pipeline_rejected what size limit =
    pipeline_failure rejected
      (message (what <> " is " <> print_ℤ size <> " bytes; max is " <> print_ℤ limit))

-- `if err != nil { return pipelineFailed(reason, operation, err) }`
unfoldable pub or_failed : {A : Type 0} → FailureReason → String → M A → M A
or_failed reason operation m tr =
    let (r, tr') = m tr in
    elim r [ ok a ↦ (ok a, tr') | err e ↦ (err (pipeline_failed reason operation e), tr') ]

module _ (env : Env) where
  -- The calls that the pipeline makes, each with its entry in the trace.
  unfoldable pub create_job_work_dir : String → M String
  create_job_work_dir job_id tr =
      let r = env.create_job_work_dir tr job_id in (r, work_dir_created job_id r ∷ tr)

  unfoldable pub get_object_size : String → M ℤ
  get_object_size key tr = let r = env.get_object_size tr key in (r, object_sized key r ∷ tr)

  unfoldable pub download : String → String → M (Unit {0})
  download key path tr =
      let e = env.download tr key path in (as_result e, downloaded key path e ∷ tr)

  unfoldable pub stat_file : String → M ℤ
  stat_file path tr = let r = env.stat_file tr path in (r, file_statted path r ∷ tr)

  unfoldable pub inspect : String → M Inspection
  inspect path tr = let r = env.inspect tr path in (r, inspected path r ∷ tr)

  unfoldable pub optimize : String → String → Options → M (Unit {0})
  optimize input output options tr =
      let e = env.optimize tr input output options in
      (as_result e, optimized input output options e ∷ tr)

  unfoldable pub upload : String → String → String → M (Unit {0})
  upload key path mime_type tr =
      let e = env.upload tr key path mime_type in (as_result e, uploaded key path mime_type e ∷ tr)

  abbrev pub digest : Result (List ℕ) → Result (List ℕ)
  digest (ok bytes) = ok (env.sha256 bytes)
  digest (err e) = err e

  -- `hash.Sum(nil)` of what was copied; the file is closed in either case.
  abbrev pub hash_file : Option Error → String → M (List ℕ)
  hash_file (some e) path tr = (err e, tr)
  hash_file none path tr =
      let r = env.copy_stream tr path in (digest r, file_closed path ∷ file_hashed path r ∷ tr)

  unfoldable pub file_sha256 : String → M (List ℕ)
  file_sha256 path tr = let e = env.open_file tr path in hash_file e path (file_opened path e ∷ tr)

  unfoldable pub download_source :
      MeshOptimizationJob → MeshJobSpec → String → ℤ → M DownloadedSource
  download_source job spec work_dir max_input_bytes = do
    publish_progress env job download_started
    remote_size ←
        or_failed source_not_found "inspect source object" (get_object_size spec.source_key)
    if ltb_ℤ max_input_bytes remote_size
        then raise (pipeline_rejected "input GLB" remote_size max_input_bytes)
        else do
          let input_path = join_path work_dir "source.glb"
          or_failed download_failed "download source GLB" (download spec.source_key input_path)
          input_size ← or_failed download_failed "stat downloaded source" (stat_file input_path)
          if ltb_ℤ max_input_bytes input_size
              then raise (pipeline_rejected "downloaded GLB" input_size max_input_bytes)
              else pure (record { path = input_path; size = input_size })

  unfoldable pub optimize_source :
      MeshOptimizationJob → MeshJobSpec → String → DownloadedSource → M PipelineResult
  optimize_source job spec work_dir source = do
    publish_progress env job analysis_started
    before ← or_failed optimization_failed "inspect source GLB" (inspect source.path)
    let output_path = join_path work_dir "optimized.glb"
    publish_progress env job optimization_started
    or_failed optimization_failed "optimize GLB" (optimize source.path output_path spec.options)
    publish_progress env job output_analysis_started
    after ← or_failed optimization_failed "inspect optimized GLB" (inspect output_path)
    output_size ← or_failed optimization_failed "stat optimized GLB" (stat_file output_path)
    output_sha256 ← or_failed optimization_failed "hash optimized GLB" (file_sha256 output_path)
    publish_progress env job upload_started
    or_failed upload_failed "upload optimized GLB"
        (upload spec.output_key output_path (get_target spec.output_target).mime_type)
    pure (record {
      before = before;
      after = after;
      input_size = source.size;
      output_size = output_size;
      output_sha256 = output_sha256;
    })

  abbrev pub warn_cleanup : Option Error → Trace → Trace
  warn_cleanup none tr = tr
  warn_cleanup (some e) tr = warned "Failed to cleanup mesh optimization work dir" ∷ tr

  -- The deferred call: the work directory goes whatever the rest did, and a failure is logged.
  unfoldable pub clean_up : {A : Type 0} → String → M A → M A
  clean_up work_dir m tr =
      let (r, tr') = m tr in
      let e = env.cleanup_job_work_dir tr' work_dir in
      (r, warn_cleanup e (work_dir_cleaned work_dir e ∷ tr'))

  -- The pipeline inside its work directory.
  unfoldable pub run_in_dir : MeshOptimizationJob → MeshJobSpec → ℤ → String → M PipelineResult
  run_in_dir job spec max_input_bytes work_dir = do
    source ← download_source job spec work_dir max_input_bytes
    optimize_source job spec work_dir source

  unfoldable pub run_pipeline : MeshOptimizationJob → MeshJobSpec → ℤ → M PipelineResult
  run_pipeline job spec max_input_bytes = do
    work_dir ← or_failed internal "create work dir" (create_job_work_dir spec.job_id)
    clean_up work_dir (run_in_dir job spec max_input_bytes work_dir)
