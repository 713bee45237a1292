-- ===== src/Optimizer/Inspection/Report.antt =====
-- internal/optimizer/inspect.go: the parser of an inspection report, line by line. The headers of a
-- section are an association list whose newest entry wins, as in the map.
use geul_asset_optimizer.Base.{
  ℕ, zero, suc, String, Bool, false, not, ◌||◌, ◌&&◌, Option, none, some, List, [], ◌∷◌, str_eq,
  starts_with, if◌then◌else◌,
}
use geul_asset_optimizer.Base.Int.{ℤ, pos, ◌+ℤ◌, wrap64}
use geul_asset_optimizer.Base.Text.{trim_space, contains_char, split}
use geul_asset_optimizer.Errors.{◌>>=◌, Error, Result, ok, err}
use geul_asset_optimizer.Optimizer.Inspection.{Inspection, empty_inspection}
use geul_asset_optimizer.Optimizer.Inspection.Csv.{at_start, read_fields}
use geul_asset_optimizer.Optimizer.Inspection.Numbers.{parse_size_bytes}

pub record InspectParser : Type 0 where
  pub stats : Inspection
  pub section : String
  pub headers : List (String × ℕ)

-- Addition of `int` and `int64`.
unfoldable pub add64 : ℤ → ℤ → ℤ
add64 a b = wrap64 (a +ℤ b)

unfoldable pub contains : List String → String → Bool
contains [] needle = false
contains (value ∷ values) needle = let rest = contains values needle in str_eq value needle || rest

-- An entry that names something.
abbrev pub is_listed : String → Bool
is_listed part = not (str_eq part "") && not (str_eq part "none")

unfoldable pub listed_parts : List String → List String
listed_parts [] = []
listed_parts (part ∷ parts) =
    let rest = listed_parts parts in
    let trimmed = trim_space part in if is_listed trimmed then trimmed ∷ rest else rest

unfoldable pub split_list : String → List String
unfolding listed_parts split
split_list value =
    if str_eq value "" || str_eq value "none" then [] else listed_parts (split b',' value)

abbrev pub is_header : List String → Bool
is_header [] = false
is_header (field ∷ fields) = str_eq field "key" || str_eq field "#"

abbrev pub index_from : ℕ → List String → List (String × ℕ) → List (String × ℕ)
index_from i [] index = index
index_from i (field ∷ fields) index = index_from (suc i) fields ((field, i) ∷ index)

unfoldable pub index_headers : List String → List (String × ℕ)
index_headers fields = index_from 0 fields []

unfoldable pub lookup : List (String × ℕ) → String → Option ℕ
lookup [] name = none
lookup ((field, i) ∷ index) name =
    let rest = lookup index name in if str_eq field name then some i else rest

abbrev pub field_at : List String → ℕ → String
field_at [] i = ""
field_at (field ∷ fields) zero = field
field_at (field ∷ fields) (suc i) = field_at fields i

unfoldable pub string_field : List String → List (String × ℕ) → String → String
unfolding lookup
string_field fields headers name = elim (lookup headers name) [
  | none ↦ ""
  | some i ↦ field_at fields i
]

unfoldable pub int_field : List String → List (String × ℕ) → String → ℤ
unfolding string_field parse_size_bytes
int_field fields headers name = parse_size_bytes (string_field fields headers name)

unfoldable pub is_inspection_section : String → Bool
is_inspection_section line =
    str_eq line "OVERVIEW"
    || str_eq line "SCENES"
    || str_eq line "MESHES"
    || str_eq line "MATERIALS"
    || str_eq line "TEXTURES"
    || str_eq line "ANIMATIONS"

unfoldable pub apply_overview_field : Inspection → String → String → Inspection
unfolding split_list
apply_overview_field stats key value =
    if str_eq key "version"
    then record stats { version = value }
    else if str_eq key "generator"
    then record stats { generator = value }
    else if str_eq key "extensionsUsed"
    then record stats { extensions_used = split_list value }
    else if str_eq key "extensionsRequired"
    then record stats { extensions_required = split_list value }
    else stats

abbrev pub overview_row : Inspection → List String → Inspection
overview_row stats (key ∷ value ∷ fields) = apply_overview_field stats key value
overview_row stats _ = stats

unfoldable pub apply_row : InspectParser → List String → Inspection
unfolding add64
apply_row p fields =
    let stats = p.stats in
    let number = int_field fields p.headers in
    if str_eq p.section "OVERVIEW"
    then overview_row stats fields
    else if str_eq p.section "SCENES"
    then record stats {
      scene_count = add64 stats.scene_count (pos 1);
      render_vertex_count = add64 stats.render_vertex_count (number "renderVertexCount");
      upload_vertex_count = add64 stats.upload_vertex_count (number "uploadVertexCount");
    }
    else if str_eq p.section "MESHES"
    then record stats {
      mesh_count = add64 stats.mesh_count (pos 1);
      mesh_primitive_count = add64 stats.mesh_primitive_count (number "meshPrimitives");
      gl_primitive_count = add64 stats.gl_primitive_count (number "glPrimitives");
      mesh_size_bytes =
          add64 stats.mesh_size_bytes (parse_size_bytes (string_field fields p.headers "size"));
    }
    else if str_eq p.section "MATERIALS"
    then record stats { material_count = add64 stats.material_count (pos 1) }
    else if str_eq p.section "TEXTURES"
    then record stats { texture_count = add64 stats.texture_count (pos 1) }
    else if str_eq p.section "ANIMATIONS"
    then record stats { animation_count = add64 stats.animation_count (pos 1) }
    else stats

-- The error of a line that is no CSV: the texts of `fmt.Errorf` and of the reader, by the line.
module _ (line_error : String → Error) where
  unfoldable pub parse_csv_line : String → Result (List String)
  unfolding read_fields
  parse_csv_line line = elim (read_fields at_start line) [
    | none ↦ err (line_error line)
    | some fields ↦ ok fields
  ]

  abbrev pub take_fields : InspectParser → List String → InspectParser
  take_fields p fields =
      if is_header fields
      then record p { headers = index_headers fields }
      else record p { stats = apply_row p fields }

  abbrev pub take_line : InspectParser → Result (List String) → Result InspectParser
  take_line p (err e) = err e
  take_line p (ok fields) = ok (take_fields p fields)

  unfoldable pub consume : InspectParser → String → Result InspectParser
  unfolding trim_space is_inspection_section
  consume p raw_line =
      let line = trim_space raw_line in
      if str_eq line "" || starts_with line "─" || starts_with line "No "
      then ok p
      else if is_inspection_section line
      then ok (record p { section = line; headers = [] })
      else if not (contains_char b',' line)
      then ok p
      else take_line p (parse_csv_line line)

  unfoldable pub consume_all : InspectParser → List String → Result InspectParser
  consume_all p [] = ok p
  consume_all p (line ∷ lines) = consume p line >>= λ p'. consume_all p' lines

  abbrev pub draco_extension : String
  draco_extension = "KHR_draco_mesh_compression"

  abbrev pub finish : Result InspectParser → Result Inspection
  finish (err e) = err e
  finish (ok p) = ok (record p.stats {
    uses_draco_compression =
        contains p.stats.extensions_used draco_extension
        || contains p.stats.extensions_required draco_extension;
  })

  abbrev pub new_parser : String → InspectParser
  new_parser report = record {
    stats = record empty_inspection { raw_report = report };
    section = "";
    headers = [];
  }

  unfoldable pub parse_inspect_csv : String → Result Inspection
  unfolding consume_all
  parse_inspect_csv report = finish (consume_all (new_parser report) (split b'\n' report))
