-- ===== src/Optimizer/Inspection/Printed/Cells.antt =====
-- That the parser's index of the columns finds the cells of a row.
use geul_asset_optimizer.Base.{
  ℕ, suc, ◌+◌, String, Option, none, some, List, [], ◌∷◌, ◌≡◌, refl, ◌∙◌, ap, str_eq, if◌then◌else◌,
  arith, Bool, true, false, is_none,
}
use geul_asset_optimizer.Errors.{or_else}
use geul_asset_optimizer.Optimizer.Inspection.Report.{
  index_from, index_headers, lookup, field_at, string_field, int_field,
}
use geul_asset_optimizer.Optimizer.Inspection.Numbers.{parse_size_bytes}
use geul_asset_optimizer.Optimizer.Inspection.Printed.Sheets.{Row, cells, cell, number, or_empty}

abbrev next : Option ℕ → Option ℕ
next none = none
next (some k) = some (suc k)

abbrev shift : ℕ → Option ℕ → Option ℕ
shift i none = none
shift i (some k) = some (i + k)

-- Where the last column of a name stands.
last : List String → String → Option ℕ
last [] name = none
last (column ∷ columns) name =
    or_else (next (last columns name)) (if str_eq column name then some 0 else none)

-- One more column, whatever the position found behind it.
more_columns :
    (i : ℕ) (o rest : Option ℕ) (b : Bool)
    → or_else (shift (suc i) o) (if b then some i else rest)
      ≡ or_else (shift i (or_else (next o) (if b then some 0 else none))) rest
more_columns i none rest true = ground arith
more_columns i none rest false = refl
more_columns i (some k) rest b = ground arith

lookup-index_from :
    (i : ℕ) (columns : List String) (index : List (String × ℕ)) (name : String)
    → lookup (index_from i columns index) name
      ≡ or_else (shift i (last columns name)) (lookup index name)
unfolding last lookup
lookup-index_from i [] index name = refl
lookup-index_from i (column ∷ columns) index name =
    lookup-index_from (suc i) columns ((column, i) ∷ index) name
    ∙ more_columns i (last columns name) (lookup index name) (str_eq column name)

abbrev field_of : List String → Option ℕ → String
field_of fields none = ""
field_of fields (some i) = field_at fields i

field_of-nil : (o : Option ℕ) → field_of [] o ≡ ""
field_of-nil none = refl
field_of-nil (some i) = refl

-- The two ways to read one more column agree, where they agree behind it.
more_cells :
    (field : String) (fields : List String) (o : Option ℕ) (c : Option String) (b : Bool)
    → field_of fields o ≡ or_empty c
    → is_none o ≡ is_none c
    → field_of (field ∷ fields) (or_else (next o) (if b then some 0 else none))
      ≡ or_empty (or_else c (if b then some field else none))
more_cells field fields none none b h k = ground arith
more_cells field fields none (some s) b h k = cc
more_cells field fields (some i) none b h k = cc
more_cells field fields (some i) (some s) b h k = h

cell-is_none :
    (columns fields : List String) (name : String)
    → is_none (last columns name) ≡ is_none (cell columns fields name)
unfolding last cell
cell-is_none [] fields name = refl
cell-is_none (column ∷ columns) [] name = ground (arith, cell-is_none columns [] name)
cell-is_none (column ∷ columns) (field ∷ fields) name =
    ground (arith, cell-is_none columns fields name)

field_of-last :
    (columns fields : List String) (name : String)
    → field_of fields (last columns name) ≡ or_empty (cell columns fields name)
unfolding last cell
field_of-last [] fields name = refl
field_of-last (column ∷ columns) [] name = ground (arith, field_of-last columns [] name)
field_of-last (column ∷ columns) (field ∷ fields) name =
    more_cells field fields (last columns name) (cell columns fields name) (str_eq column name)
      (field_of-last columns fields name) (cell-is_none columns fields name)

unshifted : (o : Option ℕ) → or_else (shift 0 o) none ≡ o
unshifted none = refl
unshifted (some k) = ground arith

found :
    (columns : List String) (name : String)
    → lookup (index_headers columns) name ≡ last columns name
unfolding index_headers lookup
found columns name = lookup-index_from 0 columns [] name ∙ unshifted (last columns name)

by_position :
    (fields : List String) (o : Option ℕ)
    → ◌≡◌ {A = String} (elim o [ none ↦ "" | some i ↦ field_at fields i ]) (field_of fields o)
by_position fields none = refl
by_position fields (some i) = refl

pub string_field-cell :
    (columns fields : List String) (name : String)
    → string_field fields (index_headers columns) name ≡ or_empty (cell columns fields name)
unfolding string_field
string_field-cell columns fields name =
    rw (found columns name, string_field)
      (by_position fields (last columns name) ∙ field_of-last columns fields name)

-- The number that the parser reads under a column is the number of the cell.
module _ (columns row : Row) (name : String) where
  pub parse_size_bytes-number :
      parse_size_bytes (string_field (cells row) (index_headers (cells columns)) name)
      ≡ number columns row name
  unfolding number
  parse_size_bytes-number = ap parse_size_bytes (string_field-cell (cells columns) (cells row) name)

  pub int_field-number :
      int_field (cells row) (index_headers (cells columns)) name ≡ number columns row name
  unfolding int_field
  int_field-number = parse_size_bytes-number
