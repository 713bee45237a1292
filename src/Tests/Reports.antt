-- ===== src/Tests/Reports.antt =====
-- Inspection reports, options and configurations.
use geul_asset_optimizer.Handler.Processor.{new_processor, default_max_input_bytes}
use geul_asset_optimizer.Base.{List, ◌↔◌, String, ◌<>◌, true, false, some, [], ◌∷◌, ◌≡◌, refl}
use geul_asset_optimizer.Base.Int.{negsuc, pos, wrap64, ◌+ℤ◌}
use geul_asset_optimizer.Base.Text.{split, trim_space, contains_char}
use geul_asset_optimizer.Errors.{Error, message, ok, ◌>>=◌, refuse_if}
use geul_asset_optimizer.Contracts.{draco, particle_mesh_v1, MeshOptimizationOptions}
use geul_asset_optimizer.Optimizer.Options.{
  profile_particle_mesh_v1, Options, options_from_event, profile_from_event,
}
use geul_asset_optimizer.Optimizer.Options.Accepted.{IsReadAs, options_from_event_iff}
use geul_asset_optimizer.Optimizer.Inspection.{Inspection, empty_inspection}
use geul_asset_optimizer.Optimizer.Inspection.Csv.{at_start, read_fields, write_fields}
use geul_asset_optimizer.Optimizer.Inspection.Csv.RoundTrip.{read-write_fields}
use geul_asset_optimizer.Optimizer.Inspection.Report.{
  parse_inspect_csv, consume_all, consume, parse_csv_line, is_inspection_section, apply_row,
  index_headers, lookup, string_field, int_field, add64, contains,
}
use geul_asset_optimizer.Optimizer.Inspection.Printed.{overview, meshes}
use geul_asset_optimizer.Optimizer.Inspection.Printed.Sheets.{
  Row, Sheet, AllTables, print_report, no_tally, count_sheets, summary,
}
use geul_asset_optimizer.Optimizer.Inspection.Printed.Totals.{parse_inspect_csv-print_report}
use geul_asset_optimizer.Optimizer.Inspection.Numbers.{
  parse_size_bytes, parse_int, parse_uint, parse_digits,
}
use geul_asset_optimizer.Config.{
  Config, load, IsLoaded, load-IsLoaded, loaded_is_accepted, mesh_queue_config,
}
use geul_asset_optimizer.Mq.Consumer.{new_consumer}

abbrev sample_options : MeshOptimizationOptions
sample_options = record {
  compression_method = draco;
  target_ratio_percent = pos 50;
  profile = particle_mesh_v1;
}

abbrev sample_options_reading : Options
sample_options_reading = record {
  target_ratio_percent = pos 50;
  profile = profile_particle_mesh_v1;
}

options_from_event_iff_example :
    (options_from_event (some sample_options) ≡ ok sample_options_reading)
    ↔ IsReadAs sample_options sample_options_reading
options_from_event_iff_example = options_from_event_iff sample_options sample_options_reading

sample_options_test : options_from_event (some sample_options) ≡ ok sample_options_reading
unfolding options_from_event profile_from_event ◌>>=◌ refuse_if
sample_options_test = refl

read-write_fields_test :
    read_fields at_start (write_fields "a,b" ("say \"hi\"" ∷ [])) ≡ some ("a,b" ∷ "say \"hi\"" ∷ [])
read-write_fields_test = read-write_fields "a,b" ("say \"hi\"" ∷ [])

abbrev no_csv : String → Error
no_csv line = message ("parse inspect csv line " <> line)

abbrev row_of : String → String → List String → Row
row_of first second others = record { first = first; second = second; others = others }

abbrev overview_sheet : Sheet
overview_sheet = record {
  section = overview;
  columns = row_of "key" "value" [];
  rows =
      row_of "version" "2.0" [] ∷ row_of "extensionsUsed" "KHR_draco_mesh_compression, A" [] ∷ [];
}

abbrev mesh_sheet : Sheet
mesh_sheet = record {
  section = meshes;
  columns = row_of "#" "name" ("glPrimitives" ∷ "size" ∷ []);
  rows = row_of "0" "a \"box\", red" ("12" ∷ "700" ∷ []) ∷ row_of "1" "b" ("30" ∷ []) ∷ [];
}

abbrev sheets : List Sheet
sheets = overview_sheet ∷ mesh_sheet ∷ []

sheets_said : count_sheets no_tally sheets ≡ record no_tally {
  meshes = 2;
  gl_primitives = pos 42;
  mesh_sizes = pos 700;
  settings = ("extensionsUsed", "KHR_draco_mesh_compression, A") ∷ ("version", "2.0") ∷ [];
}
unfolding count_sheets parse_size_bytes parse_int parse_uint parse_digits trim_space ◌+ℤ◌
sheets_said = refl

sheets-AllTables : AllTables sheets
unfolding contains_char
sheets-AllTables = (
  (refl, (refl, (refl, tt)), ((refl, (refl, (refl, tt))), ((refl, (refl, (refl, tt))), tt))),
  (
    (
      refl,
      (refl, (refl, (refl, (refl, tt)))),
      ((refl, (refl, (refl, (refl, (refl, tt))))), ((refl, (refl, (refl, (refl, tt)))), tt)),
    ),
    tt,
  ),
)

parse_inspect_csv-print_report_example :
    parse_inspect_csv no_csv (print_report sheets) ≡ ok (summary sheets)
parse_inspect_csv-print_report_example =
    parse_inspect_csv-print_report no_csv overview_sheet (mesh_sheet ∷ []) sheets-AllTables

abbrev pub scene_report : String
scene_report = "SCENES\n#,uploadVertexCount\n0,7"

abbrev pub scene_inspection : Inspection
scene_inspection = record empty_inspection {
  raw_report = scene_report;
  scene_count = pos 1;
  upload_vertex_count = pos 7;
}

scene_report_parses : parse_inspect_csv no_csv scene_report ≡ ok scene_inspection
unfolding parse_inspect_csv consume_all consume split trim_space ◌>>=◌ parse_csv_line read_fields
    is_inspection_section contains_char apply_row index_headers lookup string_field int_field
    parse_size_bytes parse_int parse_uint parse_digits add64 wrap64 ◌+ℤ◌ contains
scene_report_parses = refl

abbrev sample_config_values : Config
sample_config_values = record {
  port = pos 3030;
  instance_id = "";
  s3_bucket = "b";
  s3_region = "r";
  s3_endpoint = "e";
  s3_access_key_id = "k";
  s3_secret_access_key = "s";
  s3_force_path_style = true;
  database_dsn = "d";
  gltf_transform_path = "gltf-transform";
  node_binary_path = "node";
  particle_mesh_script_path = "scripts/optimize-particle-mesh.mjs";
  temp_dir = "/tmp/asset-optimizer";
  max_input_bytes = pos 52428800;
  worker_count = pos 1;
  job_timeout_mins = pos 20;
  log_level = "info";
}

abbrev loaded_config : Config
loaded_config = record sample_config_values { instance_id = "abcd1234" }

load-IsLoaded_example : IsLoaded loaded_config
unfolding load ◌>>=◌ refuse_if
load-IsLoaded_example = load-IsLoaded (ok sample_config_values) "abcd1234" loaded_config refl refl

loaded_config-IsLoaded : IsLoaded loaded_config
loaded_config-IsLoaded = record {
  worker_count = refl;
  job_timeout_mins = refl;
  max_input_bytes = refl;
  max_input_limit = refl;
  instance_id = refl;
}

new_processor_test : new_processor (negsuc 0) true true true true ≡ ok default_max_input_bytes
unfolding new_processor
new_processor_test = refl

loaded_is_accepted_test :
    new_consumer (some false) (mesh_queue_config "mesh" loaded_config) true
    ≡ ok (mesh_queue_config "mesh" loaded_config)
loaded_is_accepted_test = loaded_is_accepted "mesh" loaded_config refl loaded_config-IsLoaded refl
