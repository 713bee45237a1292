-- ===== src/Tests/Producing.antt =====
-- The processor on command line tools and an object store that serve every call.
use geul_asset_optimizer.Base.{arith, ℕ, List, ◌⊎◌, String, ◌∷◌, none, [], ◌≡◌, refl}
use geul_asset_optimizer.Base.Int.{pos, wrap64, ◌+ℤ◌}
use geul_asset_optimizer.Base.Text.{trim_space, split, contains_char}
use geul_asset_optimizer.Errors.{
  ok, refuse_if, is_terminal_result, message, ◌>>=◌ as ◌>>>=◌, error_of,
}
use geul_asset_optimizer.Effects.{ask, call, deferring}
use geul_asset_optimizer.Optimizer.Inspection.Csv.{read_fields}
use geul_asset_optimizer.Optimizer.Inspection.Numbers.{
  parse_size_bytes, parse_int, parse_uint, parse_digits,
}
use geul_asset_optimizer.Optimizer.Inspection.Report.{
  parse_inspect_csv, consume_all, consume, parse_csv_line, is_inspection_section, apply_row,
  index_headers, lookup, string_field, int_field, add64, contains,
}
use geul_asset_optimizer.Optimizer.Cli
use geul_asset_optimizer.Storage
use geul_asset_optimizer.Handler.World
use geul_asset_optimizer.Handler.World.{pure, raise, ◌>>=◌}
use geul_asset_optimizer.Handler.Events.{PipelineResult, publish_progress}
use geul_asset_optimizer.Handler.Pipeline.{
  or_failed, run_pipeline, create_job_work_dir, clean_up, run_in_dir, download_source,
  get_object_size, download, stat_file, optimize_source, inspect, optimize, upload, file_sha256,
}
use geul_asset_optimizer.Delivery.Produced.{
  Equips, Produced, programs, objects, run_pipeline-Produced,
}
use geul_asset_optimizer.Handler.Outcome.{PlainOption, PlainEnv}
use geul_asset_optimizer.Optimizer.Options.{
  Options, options_from_event, profile_from_event, valid_target_ratio_percent,
}
use geul_asset_optimizer.Contracts.{MeshOptimizationJob}
use geul_asset_optimizer.Handler.Validation.{
  validate_job_id, new_mesh_job_spec, validate_job, validate_identity, validate_media_target,
  validate_output, key_error,
}
use geul_asset_optimizer.Handler.Processor.{
  handle_mesh_job, process_job, run_job, finish_job, publish_complete, settle_complete,
  record_success, trace_span, handle_parsed, handle_valid,
}
use geul_asset_optimizer.Handler.Outcome.Failed.{Failed}
use geul_asset_optimizer.Mq
use geul_asset_optimizer.Mq.Telemetry.{emit_queue_delivery_succeeded}
use geul_asset_optimizer.Mq.Consumer.{settle, complete, process}
use geul_asset_optimizer.Mq.Consumer.Dispositions.{done, dispositions}
use geul_asset_optimizer.Delivery.Honest.{IsHonest, completed_means-IsHonest}
use geul_asset_optimizer.Samples.{sample_env, sample_job, sample_config, sample_message, queue_with}
use geul_asset_optimizer.Tests.Handling.{sample_spec, sample_result}
use geul_asset_optimizer.Tests.Reports.{scene_report, scene_inspection}

abbrev cli : Cli.Cli
cli = record {
  gltf_transform_path = "gltf-transform";
  node_path = "node";
  particle_mesh_script_path = "particle.mjs";
}

abbrev tools : Cli.Env
tools = record {
  run_program =
      λ tr binary_path args. record { stdout = scene_report; stderr = ""; failure = none };
  quote = λ s. s;
  line_error = λ line. message line;
}

abbrev store : Storage.Env
store = record {
  quote = λ s. s;
  load_default_config = λ tr region id key. none;
  mkdir_all = λ tr path. none;
  get_object = λ tr bucket key. none;
  create_file = λ tr path. none;
  copy_stream = λ tr. ok (pos 40);
  open_file = λ tr path. none;
  stat_file = λ tr. ok (pos 40);
  put_object = λ tr bucket key content_type size. none;
  delete_object = λ tr bucket key. none;
  head_object = λ tr bucket key. ok none;
}

abbrev equipped : World.Env
equipped = record sample_env {
  inspect = λ tr path. (Cli.inspect tools cli path (programs tools cli tr)).0;
  optimize = λ tr input output options.
      error_of (Cli.optimize tools cli input output options (programs tools cli tr)).0;
  download = λ tr key path.
      error_of (Storage.download store "media" key path (objects store "media" tr)).0;
  upload = λ tr key path mime.
      error_of (Storage.upload store "media" key path mime (objects store "media" tr)).0;
}

equipped-Equips : Equips equipped tools cli store "media"
equipped-Equips = record {
  inspect_wired = λ tr path. refl;
  optimize_wired = λ tr input output options. refl;
  download_wired = λ tr key path. refl;
  upload_wired = λ tr key path mime. refl;
}

abbrev scene_result : PipelineResult
scene_result = record sample_result { before = scene_inspection; after = scene_inspection }

equipped_succeeds : (run_pipeline equipped sample_job sample_spec (pos 50) []).0 ≡ ok scene_result
unfolding run_pipeline ◌>>=◌ or_failed create_job_work_dir clean_up run_in_dir download_source
    publish_progress get_object_size download stat_file optimize_source inspect optimize upload
    file_sha256 pure raise Cli.inspect Cli.optimize Cli.run Storage.download Storage.fetch
    Storage.save_body Storage.write_local Storage.upload Storage.put_file ask call deferring
    parse_inspect_csv consume_all consume split trim_space ◌>>>=◌ parse_csv_line read_fields
    is_inspection_section contains_char apply_row index_headers lookup string_field int_field
    parse_size_bytes parse_int parse_uint parse_digits add64 wrap64 ◌+ℤ◌ contains
equipped_succeeds = refl

run_pipeline-Produced_example :
    (dir : String) × Produced equipped tools cli store "media" sample_spec dir scene_result
      (run_pipeline equipped sample_job sample_spec (pos 50) []).1
run_pipeline-Produced_example =
    run_pipeline-Produced equipped tools cli store "media" equipped-Equips sample_job sample_spec
      (pos 50) [] scene_result equipped_succeeds

equipped_inspects :
    (tr : World.Trace) (path : String) → equipped.inspect tr path ≡ ok scene_inspection
unfolding Cli.inspect Cli.run parse_inspect_csv consume_all consume split trim_space ◌>>>=◌
    parse_csv_line read_fields is_inspection_section contains_char apply_row index_headers lookup
    string_field int_field parse_size_bytes parse_int parse_uint parse_digits add64 wrap64 ◌+ℤ◌
    contains
equipped_inspects tr path = refl

equipped_optimizes :
    (tr : World.Trace) (input output : String) (options : Options)
    → PlainOption (equipped.optimize tr input output options)
unfolding Cli.optimize Cli.run
equipped_optimizes tr input output options = ground arith

equipped_downloads : (tr : World.Trace) (key path : String) → equipped.download tr key path ≡ none
unfolding Storage.download Storage.fetch Storage.save_body Storage.write_local ask call deferring
    ◌>>=◌ pure
equipped_downloads tr key path = refl

equipped_uploads :
    (tr : World.Trace) (key path mime : String) → equipped.upload tr key path mime ≡ none
unfolding Storage.upload Storage.put_file ask call deferring ◌>>=◌
equipped_uploads tr key path mime = refl

equipped-PlainEnv : PlainEnv equipped
equipped-PlainEnv = record {
  unmarshal_job = λ body. tt;
  media_object_key = λ id ext. tt;
  create_job_work_dir = λ tr id. tt;
  get_object_size = λ tr key. tt;
  download = λ tr key path. rw (equipped_downloads tr key path) tt;
  upload = λ tr key path mime. rw (equipped_uploads tr key path mime) tt;
  inspect = λ tr path. rw (equipped_inspects tr path) tt;
  optimize = equipped_optimizes;
  publish_complete = λ tr e. tt;
  publish_fail = λ tr e. tt;
  stat_file = λ tr path. tt;
  open_file = λ tr path. tt;
  copy_stream = λ tr path. tt;
}

equipped_handles : (handle_mesh_job equipped (pos 50) [] []).0 ≡ ok tt
unfolding run_pipeline ◌>>=◌ or_failed create_job_work_dir clean_up run_in_dir download_source
    publish_progress get_object_size download stat_file optimize_source inspect optimize upload
    file_sha256 pure raise Cli.inspect Cli.optimize Cli.run Storage.download Storage.fetch
    Storage.save_body Storage.write_local Storage.upload Storage.put_file ask call deferring
    parse_inspect_csv consume_all consume split trim_space ◌>>>=◌ parse_csv_line read_fields
    is_inspection_section contains_char apply_row index_headers lookup string_field int_field
    parse_size_bytes parse_int parse_uint parse_digits add64 wrap64 ◌+ℤ◌ contains handle_mesh_job
    process_job validate_job_id refuse_if new_mesh_job_spec validate_job validate_identity
    validate_media_target validate_output options_from_event profile_from_event run_job finish_job
    publish_complete settle_complete record_success trace_span handle_parsed handle_valid key_error
    valid_target_ratio_percent
equipped_handles = refl

abbrev equipped_queue : Mq.World.Env
equipped_queue = queue_with (λ body. error_of (handle_mesh_job equipped (pos 50) body []).0)

equipped_completes :
    dispositions (process equipped_queue sample_config sample_message [])
    ≡ done (pos 7) ∷ dispositions []
unfolding process settle complete emit_queue_delivery_succeeded is_terminal_result
equipped_completes = rw (equipped_handles, process) refl

completed_means-IsHonest_example :
    (body : List ℕ) × (equipped_queue.payload sample_message.envelope ≡ ok body)
    × (IsHonest equipped tools cli store "media"
          (pos 50)
          body
          (handle_mesh_job equipped (pos 50) body []).1
        ⊎ ((job : MeshOptimizationJob) × (equipped.unmarshal_job body ≡ ok job)
            × Failed equipped (pos 50) job (handle_mesh_job equipped (pos 50) body []).1))
completed_means-IsHonest_example =
    completed_means-IsHonest equipped_queue sample_config sample_message [] (pos 50)
      (λ at. equipped) tools cli store "media" (λ tr body. refl) (λ at. equipped-PlainEnv)
      (λ at. equipped-Equips) equipped_completes
