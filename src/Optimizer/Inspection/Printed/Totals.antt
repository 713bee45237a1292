-- ===== src/Optimizer/Inspection/Printed/Totals.antt =====
-- That the parser makes of a printed report what its tables say.
use geul_asset_optimizer.Base.{
  ℕ, suc, String, true, false, List, [], ◌∷◌, ◌≡◌, refl, sym, subst, ap, ◌∙◌, str_eq, eq_iff, arith,
  Bool-cases, inl, inr,
}
use geul_asset_optimizer.Base.Int.{ℤ, pos, ◌+ℤ◌, wrap64, wrap64-add_wrapped}
use geul_asset_optimizer.Errors.{Error, ok}
use geul_asset_optimizer.Optimizer.Inspection.{Inspection}
use geul_asset_optimizer.Optimizer.Inspection.Report.{
  InspectParser, add64, apply_row, apply_overview_field, index_headers, parse_inspect_csv,
  new_parser, split_list,
}
use geul_asset_optimizer.Optimizer.Inspection.Printed.{
  Section, overview, scenes, meshes, materials, textures, animations, title, Line, titled,
  AllOneLine, read_line, read_lines, write_lines,
}
use geul_asset_optimizer.Optimizer.Inspection.Printed.Sheets.{
  flagged, AllTables, AllRows, heads, Row, Sheet, Tally, no_tally, cells, row_line, rows_lines,
  sheets_lines, print_report, number, count_row, count_rows, count_sheets, setting, inspected,
  summary,
}
use geul_asset_optimizer.Optimizer.Inspection.Printed.Cells.{
  int_field-number, parse_size_bytes-number,
}
use geul_asset_optimizer.Optimizer.Inspection.Printed.Lines.{parse_inspect_csv-write_lines}

-- The parser in a table.
abbrev at_sheet : Section → Row → Tally → String → InspectParser
at_sheet section columns t report = record {
  stats = inspected t report;
  section = title section;
  headers = index_headers (cells columns);
}

add64-wrapped : (a b : ℤ) → add64 (wrap64 a) b ≡ wrap64 (a +ℤ b)
unfolding add64
add64-wrapped a b = wrap64-add_wrapped a b

add64_counted : (n : ℕ) → add64 (wrap64 (pos n)) (pos 1) ≡ wrap64 (pos (suc n))
unfolding ◌+ℤ◌
add64_counted n = add64-wrapped (pos n) (pos 1) ∙ ap wrap64 (ground arith)

module _ (t : Tally) (report : String) where
  abbrev TakesSetting : String → String → Type 0
  TakesSetting value key =
      apply_overview_field (inspected t report) key value
      ≡ inspected (record t { settings = (key, value) ∷ t.settings }) report

  -- A key that the parser knows, or another one.
  set_or_other :
      (value key known : String)
      → TakesSetting value known
      → (str_eq key known ≡ false → TakesSetting value key)
      → TakesSetting value key
  set_or_other value key known h other = elim (Bool-cases (str_eq key known)) [
    | inl same ↦ subst (TakesSetting value) (sym ((eq_iff key known).0 same)) h
    | inr differs ↦ other differs
  ]

  apply_overview_field-setting : (key value : String) → TakesSetting value key
  unfolding apply_overview_field setting
  apply_overview_field-setting key value = set_or_other value key "version" refl λ v.
      set_or_other value key "generator" refl λ g.
        set_or_other value key "extensionsUsed" refl
          λ u. set_or_other value key "extensionsRequired" refl λ r. ground (arith, v, g, u, r)

  apply_row-count_row :
      (section : Section) (columns row : Row)
      → apply_row (at_sheet section columns t report) (cells row)
        ≡ inspected (count_row section columns t row) report
  unfolding apply_row count_row
  apply_row-count_row overview columns row = apply_overview_field-setting row.first row.second
  apply_row-count_row scenes columns row = ground (
    arith,
    add64_counted t.scenes,
    add64-wrapped t.render_vertices (number columns row "renderVertexCount"),
    add64-wrapped t.upload_vertices (number columns row "uploadVertexCount"),
    int_field-number columns row "renderVertexCount",
    int_field-number columns row "uploadVertexCount",
  )
  apply_row-count_row meshes columns row = ground (
    arith,
    add64_counted t.meshes,
    add64-wrapped t.mesh_primitives (number columns row "meshPrimitives"),
    add64-wrapped t.gl_primitives (number columns row "glPrimitives"),
    add64-wrapped t.mesh_sizes (number columns row "size"),
    int_field-number columns row "meshPrimitives",
    int_field-number columns row "glPrimitives",
    parse_size_bytes-number columns row "size",
  )
  apply_row-count_row materials columns row = ground (arith, add64_counted t.materials)
  apply_row-count_row textures columns row = ground (arith, add64_counted t.textures)
  apply_row-count_row animations columns row = ground (arith, add64_counted t.animations)

module _ (line_error : String → Error) (report : String) where
  read_row :
      (section : Section) (columns row : Row) (t : Tally)
      → heads row.first ≡ false
      → read_line line_error (at_sheet section columns t report) (row_line row)
        ≡ at_sheet section columns (count_row section columns t row) report
  read_row section columns row t h = rw h (
      ap (λ (stats : Inspection). record (at_sheet section columns t report) { stats = stats })
        (apply_row-count_row t report section columns row))

  read_rows :
      (section : Section) (columns : Row) (t : Tally) (rows : List Row) (rest : List Line)
      → AllRows rows
      → read_lines line_error (at_sheet section columns t report) (rows_lines rows rest)
        ≡ read_lines line_error
            (at_sheet section columns (count_rows section columns t rows) report)
            rest
  unfolding count_rows
  read_rows section columns t [] rest h = refl
  read_rows section columns t (row ∷ rows) rest ((h, plain), more) =
      ap (λ (q : InspectParser). read_lines line_error q (rows_lines rows rest))
        (read_row section columns row t h)
      ∙ read_rows section columns (count_row section columns t row) rows rest more

  read_columns :
      (section : Section) (columns : Row) (t : Tally) (p : InspectParser)
      → heads columns.first ≡ true
      → p.stats ≡ inspected t report
      → read_line line_error (read_line line_error p (titled section)) (row_line columns)
        ≡ at_sheet section columns t report
  read_columns section columns t p h same = rw (h, same) refl

  read_sheets :
      (p : InspectParser) (t : Tally) (sheets : List Sheet)
      → AllTables sheets
      → p.stats ≡ inspected t report
      → (read_lines line_error p (sheets_lines sheets)).stats
        ≡ inspected (count_sheets t sheets) report
  unfolding count_sheets
  read_sheets p t [] h same = same
  read_sheets p t (s ∷ sheets) ((head, plain, rows), more) same =
      ap
        (λ (q : InspectParser).
          (read_lines line_error q (rows_lines s.rows (sheets_lines sheets))).stats)
        (read_columns s.section s.columns t p head same)
      ∙ ap (λ (q : InspectParser). q.stats)
          (read_rows s.section s.columns t s.rows (sheets_lines sheets) rows)
      ∙ read_sheets (at_sheet s.section s.columns (count_rows s.section s.columns t s.rows) report)
          (count_rows s.section s.columns t s.rows) sheets more refl

rows-AllOneLine :
    (rows : List Row) (rest : List Line)
    → AllRows rows
    → AllOneLine rest
    → AllOneLine (rows_lines rows rest)
rows-AllOneLine [] rest h k = k
rows-AllOneLine (row ∷ rows) rest ((h, plain), more) k = (plain, rows-AllOneLine rows rest more k)

sheets-AllOneLine : (sheets : List Sheet) → AllTables sheets → AllOneLine (sheets_lines sheets)
sheets-AllOneLine [] h = tt
sheets-AllOneLine (s ∷ sheets) ((head, plain, rows), more) =
    (tt, (plain, rows-AllOneLine s.rows (sheets_lines sheets) rows (sheets-AllOneLine sheets more)))

new_parser-no_tally :
    (line_error : String → Error) (report : String)
    → (new_parser line_error report).stats ≡ inspected no_tally report
unfolding setting split_list wrap64
new_parser-no_tally line_error report = refl

-- A report that is printed from tables, whatever their sections, columns and cells, is parsed as what
-- they say: as many scenes, meshes, materials, textures and animations as they have rows, the sums of
-- their columns, found by name, and the newest settings of the overview, with the Draco flag by the
-- extensions that it lists. The numbers are 64-bit integers. The conditions are that there is a
-- table, that the first column of each is called key or #, which the first cell of no row is, and
-- that no cell has a line feed.
pub parse_inspect_csv-print_report :
    (line_error : String → Error) (s : Sheet) (sheets : List Sheet)
    → AllTables (s ∷ sheets)
    → parse_inspect_csv line_error (print_report (s ∷ sheets)) ≡ ok (summary (s ∷ sheets))
unfolding print_report summary
parse_inspect_csv-print_report line_error s sheets h =
    let lines = sheets_lines (s ∷ sheets) in
    let report = write_lines lines in
    parse_inspect_csv-write_lines line_error (titled s.section)
      (row_line s.columns ∷ rows_lines s.rows (sheets_lines sheets))
      (sheets-AllOneLine (s ∷ sheets) h)
    ∙ ap (λ (i : Inspection). ok (flagged i))
        (read_sheets line_error report (new_parser line_error report) no_tally (s ∷ sheets) h
          (new_parser-no_tally line_error report))
