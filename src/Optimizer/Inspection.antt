-- ===== src/Optimizer/Inspection.antt =====
-- `Inspection` of internal/optimizer/inspect.go: what a report of the inspection tool says of a
-- model.
pub mod Csv
pub mod Numbers
pub mod Report
pub mod Printed
use geul_asset_optimizer.Base.{String, Bool, false, List, []}
use geul_asset_optimizer.Base.Int.{ℤ, pos}

pub record Inspection : Type 0 where
  pub version : String
  pub generator : String
  pub extensions_used : List String
  pub extensions_required : List String
  pub scene_count : ℤ
  pub mesh_count : ℤ
  pub material_count : ℤ
  pub texture_count : ℤ
  pub animation_count : ℤ
  pub render_vertex_count : ℤ
  pub upload_vertex_count : ℤ
  pub mesh_primitive_count : ℤ
  pub gl_primitive_count : ℤ
  pub mesh_size_bytes : ℤ
  pub uses_draco_compression : Bool
  pub raw_report : String

abbrev pub empty_inspection : Inspection
empty_inspection = record {
  version = "";
  generator = "";
  extensions_used = [];
  extensions_required = [];
  scene_count = pos 0;
  mesh_count = pos 0;
  material_count = pos 0;
  texture_count = pos 0;
  animation_count = pos 0;
  render_vertex_count = pos 0;
  upload_vertex_count = pos 0;
  mesh_primitive_count = pos 0;
  gl_primitive_count = pos 0;
  mesh_size_bytes = pos 0;
  uses_draco_compression = false;
  raw_report = "";
}
