-- ===== src/Optimizer/Inspection/Printed/Sheets.antt =====
-- A report as tables, and what it says of a model, told from the tables alone: their cells by column,
-- exact sums, and the settings of the overview. Nothing of the parser is used but the reading of a
-- number and of a list in a cell.
use geul_asset_optimizer.Base.{
  ℕ, suc, String, Bool, true, false, ◌||◌, Option, none, some, List, [], ◌∷◌, ◌≡◌, str_eq,
  if◌then◌else◌,
}
use geul_asset_optimizer.Base.Int.{ℤ, pos, ◌+ℤ◌, wrap64}
use geul_asset_optimizer.Base.Text.Trim.{AllLack}
use geul_asset_optimizer.Errors.{or_else}
use geul_asset_optimizer.Optimizer.Inspection.{Inspection}
use geul_asset_optimizer.Optimizer.Inspection.Numbers.{parse_size_bytes}
use geul_asset_optimizer.Optimizer.Inspection.Report.{split_list, contains}
use geul_asset_optimizer.Optimizer.Inspection.Printed.{
  Section, overview, scenes, meshes, materials, textures, animations, Line, titled, listed,
  write_lines,
}

-- Two cells and the others.
pub record Row : Type 0 where
  pub first : String
  pub second : String
  pub others : List String

pub record Sheet : Type 0 where
  pub section : Section
  pub columns : Row
  pub rows : List Row

abbrev pub cells : Row → List String
cells r = r.first ∷ r.second ∷ r.others

abbrev pub row_line : Row → Line
row_line r = listed r.first r.second r.others

abbrev pub rows_lines : List Row → List Line → List Line
rows_lines [] rest = rest
rows_lines (row ∷ rows) rest = row_line row ∷ rows_lines rows rest

abbrev pub sheets_lines : List Sheet → List Line
sheets_lines [] = []
sheets_lines (s ∷ sheets) =
    titled s.section ∷ row_line s.columns ∷ rows_lines s.rows (sheets_lines sheets)

unfoldable pub print_report : List Sheet → String
print_report sheets = write_lines (sheets_lines sheets)

-- What the first cell of the columns says, and that of no row.
abbrev pub heads : String → Bool
heads s = str_eq s "key" || str_eq s "#"

abbrev pub IsRow : Row → Type 0
IsRow row = (heads row.first ≡ false) × AllLack b'\n' (cells row)

abbrev pub AllRows : List Row → Type 0
AllRows [] = Unit
AllRows (row ∷ rows) = IsRow row × AllRows rows

-- A table whose first column is called key or #, and no cell of which has a line feed.
abbrev pub IsTable : Sheet → Type 0
IsTable s = (heads s.columns.first ≡ true) × AllLack b'\n' (cells s.columns) × AllRows s.rows

abbrev pub AllTables : List Sheet → Type 0
AllTables [] = Unit
AllTables (s ∷ sheets) = IsTable s × AllTables sheets

-- The cell of a row under a column; of two columns with one name, the last one.
unfoldable pub cell : List String → List String → String → Option String
cell [] row name = none
cell (column ∷ columns) [] name =
    or_else (cell columns [] name) (if str_eq column name then some "" else none)
cell (column ∷ columns) (field ∷ fields) name =
    or_else (cell columns fields name) (if str_eq column name then some field else none)

abbrev pub or_empty : Option String → String
or_empty none = ""
or_empty (some s) = s

-- The number in the cell, and zero where there is none.
unfoldable pub number : Row → Row → String → ℤ
unfolding cell
number columns row name = parse_size_bytes (or_empty (cell (cells columns) (cells row) name))

pub record Tally : Type 0 where
  pub scenes : ℕ
  pub meshes : ℕ
  pub materials : ℕ
  pub textures : ℕ
  pub animations : ℕ
  pub render_vertices : ℤ
  pub upload_vertices : ℤ
  pub mesh_primitives : ℤ
  pub gl_primitives : ℤ
  pub mesh_sizes : ℤ
  -- the rows of the overview, by key and value, newest first
  pub settings : List (String × String)

abbrev pub no_tally : Tally
no_tally = record {
  scenes = 0;
  meshes = 0;
  materials = 0;
  textures = 0;
  animations = 0;
  render_vertices = pos 0;
  upload_vertices = pos 0;
  mesh_primitives = pos 0;
  gl_primitives = pos 0;
  mesh_sizes = pos 0;
  settings = [];
}

unfoldable pub count_row : Section → Row → Tally → Row → Tally
unfolding number
count_row overview columns t row = record t { settings = (row.first, row.second) ∷ t.settings }
count_row scenes columns t row = record t {
  scenes = suc t.scenes;
  render_vertices = t.render_vertices +ℤ number columns row "renderVertexCount";
  upload_vertices = t.upload_vertices +ℤ number columns row "uploadVertexCount";
}
count_row meshes columns t row = record t {
  meshes = suc t.meshes;
  mesh_primitives = t.mesh_primitives +ℤ number columns row "meshPrimitives";
  gl_primitives = t.gl_primitives +ℤ number columns row "glPrimitives";
  mesh_sizes = t.mesh_sizes +ℤ number columns row "size";
}
count_row materials columns t row = record t { materials = suc t.materials }
count_row textures columns t row = record t { textures = suc t.textures }
count_row animations columns t row = record t { animations = suc t.animations }

unfoldable pub count_rows : Section → Row → Tally → List Row → Tally
unfolding count_row
count_rows section columns t [] = t
count_rows section columns t (row ∷ rows) =
    count_rows section columns (count_row section columns t row) rows

unfoldable pub count_sheets : Tally → List Sheet → Tally
unfolding count_rows
count_sheets t [] = t
count_sheets t (s ∷ sheets) = count_sheets (count_rows s.section s.columns t s.rows) sheets

-- The newest value under a key.
unfoldable pub setting : String → List (String × String) → String
setting key [] = ""
setting key ((k, value) ∷ settings) =
    let rest = setting key settings in if str_eq k key then value else rest

-- What the tally comes to, every number as a 64-bit integer.
abbrev pub inspected : Tally → String → Inspection
inspected t report =
    let used = split_list (setting "extensionsUsed" t.settings) in
    let required = split_list (setting "extensionsRequired" t.settings) in
    record {
      version = setting "version" t.settings;
      generator = setting "generator" t.settings;
      extensions_used = used;
      extensions_required = required;
      scene_count = wrap64 (pos t.scenes);
      mesh_count = wrap64 (pos t.meshes);
      material_count = wrap64 (pos t.materials);
      texture_count = wrap64 (pos t.textures);
      animation_count = wrap64 (pos t.animations);
      render_vertex_count = wrap64 t.render_vertices;
      upload_vertex_count = wrap64 t.upload_vertices;
      mesh_primitive_count = wrap64 t.mesh_primitives;
      gl_primitive_count = wrap64 t.gl_primitives;
      mesh_size_bytes = wrap64 t.mesh_sizes;
      uses_draco_compression = false;
      raw_report = report;
    }

abbrev pub flagged : Inspection → Inspection
flagged i = record i {
  uses_draco_compression =
      contains i.extensions_used "KHR_draco_mesh_compression"
      || contains i.extensions_required "KHR_draco_mesh_compression";
}

unfoldable pub summary : List Sheet → Inspection
unfolding count_sheets setting
summary sheets = flagged (inspected (count_sheets no_tally sheets) (print_report sheets))
