-- ===== src/Optimizer/Inspection/Printed.antt =====
-- A report as the inspection tool prints it, line by line, and what the parser reads from each line.
-- A line with fields has two of them at least; the fields are quoted.
pub mod Lines
pub mod Sheets
pub mod Cells
pub mod Totals
use geul_asset_optimizer.Base.{ℕ, String, ◌<>◌, List, [], ◌∷◌, ◌≡◌, map, true, false, ◌||◌}
use geul_asset_optimizer.Base.Text.{join}
use geul_asset_optimizer.Base.Text.Trim.{AllLack}
use geul_asset_optimizer.Errors.{Error}
use geul_asset_optimizer.Optimizer.Inspection.Csv.{write_fields}
use geul_asset_optimizer.Optimizer.Inspection.Report.{
  InspectParser, is_header, index_headers, apply_row, take_fields,
}

pub data Section : Type 0 where
  overview scenes meshes materials textures animations : Section

abbrev pub title : Section → String
title overview = "OVERVIEW"
title scenes = "SCENES"
title meshes = "MESHES"
title materials = "MATERIALS"
title textures = "TEXTURES"
title animations = "ANIMATIONS"

pub data Line : Type 0 where
  titled : Section → Line
  listed : String → String → List String → Line

unfoldable pub write_line : Line → String
unfolding write_fields
write_line (titled s) = title s
write_line (listed field next fields) = write_fields field (next ∷ fields)

unfoldable pub write_lines : List Line → String
write_lines lines = join (map write_line lines) "\n"

-- No field has a line feed.
abbrev pub IsOneLine : Line → Type 0
IsOneLine (titled s) = Unit
IsOneLine (listed field next fields) = AllLack b'\n' (field ∷ next ∷ fields)

abbrev pub AllOneLine : List Line → Type 0
AllOneLine [] = Unit
AllOneLine (line ∷ lines) = IsOneLine line × AllOneLine lines

-- What a line means to the parser.
abbrev pub read_line : (String → Error) → InspectParser → Line → InspectParser
read_line line_error p (titled s) = record p { section = title s; headers = [] }
read_line line_error p (listed field next fields) = take_fields line_error p (field ∷ next ∷ fields)

abbrev pub read_lines : (String → Error) → InspectParser → List Line → InspectParser
read_lines line_error p [] = p
read_lines line_error p (line ∷ lines) = read_lines line_error (read_line line_error p line) lines
