-- ===== src/Tests/Handling.antt =====
-- The processor on a job that succeeds.
use geul_asset_optimizer.Base.{if◌then◌else◌, ◌∷◌, String, none, some, [], ◌≡◌, refl, Option}
use geul_asset_optimizer.Base.Int.{pos}
use geul_asset_optimizer.Base.Text.{trim_space}
use geul_asset_optimizer.Errors.{
  is_err, error_of, is_terminal_result, Error, ok, ◌>>=◌ as ◌>>>=◌, refuse_if,
}
use geul_asset_optimizer.Handler.Validation.{
  MeshJobSpec, validate_job_id, new_mesh_job_spec, validate_job, validate_identity,
  validate_media_target, validate_output, key_error,
}
use geul_asset_optimizer.Handler.Processor.{
  handle_mesh_job, process_job, run_job, finish_job, publish_complete, settle_complete,
  record_success, trace_span, handle_parsed, handle_valid,
}
use geul_asset_optimizer.Optimizer.Options.{
  profile_particle_mesh_v1, options_from_event, profile_from_event, valid_target_ratio_percent,
}
use geul_asset_optimizer.Handler.Pipeline.Atomic.{stored_keys, run_pipeline-stored_keys}
use geul_asset_optimizer.Handler.Pipeline.Delivered.{Delivered, run_pipeline-Delivered}
use geul_asset_optimizer.Handler.World.{◌>>=◌, pure, raise}
use geul_asset_optimizer.Handler.Events.{PipelineResult, publish_fail, publish_progress}
use geul_asset_optimizer.Handler.Pipeline.{
  or_failed, run_pipeline, create_job_work_dir, clean_up, run_in_dir, download_source,
  get_object_size, download, stat_file, optimize_source, inspect, optimize, upload, file_sha256,
}
use geul_asset_optimizer.Handler.Outcome.{answer, Classified}
use geul_asset_optimizer.Handler.Outcome.Settled.{handle_mesh_job_settles}
use geul_asset_optimizer.Handler.Outcome.Acknowledged.{acknowledged_announced}
use geul_asset_optimizer.Handler.Protocol.{idle, phase}
use geul_asset_optimizer.Handler.Protocol.Runs.{phase-handle_mesh_job}
use geul_asset_optimizer.Handler.Validation.Accepted.{IsValid, new_mesh_job_spec-IsValid}
use geul_asset_optimizer.Samples.{
  sample_inspection, sample_libraries, sample_env, sample_job, sample_env-PlainEnv,
}

sample_job_valid : validate_job_id sample_env.libraries sample_job ≡ ok tt
unfolding validate_job_id trim_space refuse_if ◌>>>=◌
sample_job_valid = refl

handle_mesh_job_settles_example :
    (outcome : Option Error) × (answer (handle_mesh_job sample_env (pos 50) [] []).1 ≡ some outcome)
    × Classified outcome (error_of (handle_mesh_job sample_env (pos 50) [] []).0)
handle_mesh_job_settles_example =
    handle_mesh_job_settles sample_env (pos 50) [] sample_job sample_env-PlainEnv refl
      sample_job_valid

pub sample_job_succeeds : (handle_mesh_job sample_env (pos 50) [] []).0 ≡ ok tt
unfolding handle_mesh_job publish_fail process_job validate_job_id trim_space refuse_if ◌>>>=◌
    new_mesh_job_spec run_pipeline ◌>>=◌ or_failed validate_job validate_identity
    validate_media_target validate_output options_from_event profile_from_event create_job_work_dir
    clean_up run_in_dir download_source publish_progress get_object_size download stat_file
    optimize_source inspect optimize upload file_sha256 pure raise run_job finish_job
    publish_complete settle_complete record_success trace_span handle_parsed handle_valid key_error
    valid_target_ratio_percent
sample_job_succeeds = refl

acknowledged_announced_example : answer (handle_mesh_job sample_env (pos 50) [] []).1 ≡ some none
unfolding is_terminal_result
acknowledged_announced_example =
    acknowledged_announced sample_env sample_env-PlainEnv (pos 50) [] (rw sample_job_succeeds refl)

phase-handle_mesh_job_example : phase (handle_mesh_job sample_env (pos 50) [] []).1 ≡ some idle
unfolding phase
phase-handle_mesh_job_example = phase-handle_mesh_job sample_env (pos 50) [] [] refl

abbrev pub sample_spec : MeshJobSpec
sample_spec = record {
  job_id = "j1";
  source_key = "media/f1.glb";
  output_key = "media/f2.glb";
  output_target = sample_job.output;
  options = record { target_ratio_percent = pos 50; profile = profile_particle_mesh_v1 };
}

abbrev pub sample_result : PipelineResult
sample_result = record {
  before = sample_inspection;
  after = sample_inspection;
  input_size = pos 40;
  output_size = pos 40;
  output_sha256 = 1 ∷ 2 ∷ [];
}

sample_pipeline_succeeds :
    (run_pipeline sample_env sample_job sample_spec (pos 50) []).0 ≡ ok sample_result
unfolding run_pipeline ◌>>=◌ or_failed create_job_work_dir clean_up run_in_dir download_source
    publish_progress get_object_size download stat_file optimize_source inspect optimize upload
    file_sha256 pure raise
sample_pipeline_succeeds = refl

run_pipeline-Delivered_example :
    (dir : String) × Delivered sample_env sample_job sample_spec
      (pos 50)
      dir
      sample_result
      (run_pipeline sample_env sample_job sample_spec (pos 50) []).1
run_pipeline-Delivered_example =
    run_pipeline-Delivered sample_env sample_job sample_spec (pos 50) [] sample_result
      sample_pipeline_succeeds

sample_job_has_spec : new_mesh_job_spec sample_libraries sample_job ≡ ok sample_spec
unfolding new_mesh_job_spec validate_job validate_job_id trim_space refuse_if ◌>>>=◌
    validate_identity validate_media_target validate_output key_error options_from_event
    profile_from_event valid_target_ratio_percent
sample_job_has_spec = refl

new_mesh_job_spec-IsValid_example :
    (valid : IsValid sample_libraries sample_job) × (sample_spec.source_key
      ≡ valid.source.object_key)
    × (sample_spec.output_key ≡ valid.output.object_key)
    × (options_from_event sample_job.options ≡ ok sample_spec.options)
new_mesh_job_spec-IsValid_example =
    new_mesh_job_spec-IsValid sample_libraries sample_job sample_spec sample_job_has_spec

run_pipeline-stored_keys_example :
    stored_keys (run_pipeline sample_env sample_job sample_spec (pos 50) []).1 ≡ (
      if is_err (run_pipeline sample_env sample_job sample_spec (pos 50) []).0
      then stored_keys []
      else "media/f2.glb" ∷ stored_keys [])
run_pipeline-stored_keys_example =
    run_pipeline-stored_keys sample_env sample_job sample_spec (pos 50) []
