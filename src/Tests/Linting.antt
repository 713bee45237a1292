-- ===== src/Tests/Linting.antt =====
-- The nested-if lint on small trees: an `else if` chain, an if statement in another one's body, a
-- function literal in a condition, and a function without a body.
use geul_asset_optimizer.Base.{
  ℕ, true, false, none, some, [], ◌∷◌, map, ◌≡◌, ◌↔◌, refl, str_eq, if◌then◌else◌,
}
use geul_asset_optimizer.Errors.{message, ok, err}
use geul_asset_optimizer.Lint
use geul_asset_optimizer.Lint.{
  Position, Node, func_decl, func_lit, if_stmt, other, absent, present, walk,
}
use geul_asset_optimizer.Lint.Nested.{lacks_body, nested, violation_at, walk_reports_nested}
use geul_asset_optimizer.Lint.Files
use geul_asset_optimizer.Base.FilePath.{join_path, elements}
use geul_asset_optimizer.Lint.Files.{walk_dir, file_entry, dir_entry, main, inspect_roots, returned}
use geul_asset_optimizer.Lint.Files.Visits.{all_visits}
use mathlib.Core.List.{Perm}
use geul_asset_optimizer.Lint.Files.Order.{Sorts, IsInOrder, main-IsInOrder}
use geul_asset_optimizer.Tests.Sorting.{
  insertion_sort, insertion_sort-perm, insertion_sort-IsSorted,
}
use geul_asset_optimizer.Lint.Files.Clean.{all_clean, roots_of, main-clean}

abbrev at_line : ℕ → Position
at_line n = record { offset = n; line = n; column = 2 }

abbrev leaf : Node
leaf = other Lint.nil

-- `if c { if c {} } else if c {}`
abbrev nested_if : Node
nested_if =
    if_stmt (at_line 1) absent leaf
      (other (Lint.cons (if_stmt (at_line 2) absent leaf leaf absent) Lint.nil))
      (present (if_stmt (at_line 3) absent leaf leaf absent))

-- `if f(func() { if c {} }) {}`
abbrev literal_if : Node
literal_if =
    if_stmt (at_line 5) absent (func_lit (if_stmt (at_line 6) absent leaf leaf absent)) leaf absent

abbrev sample_tree : Node
sample_tree = other (Lint.cons (func_decl (present nested_if)) (Lint.cons literal_if Lint.nil))

nested_test : nested false sample_tree ≡ at_line 2 ∷ []
unfolding nested
nested_test = refl

bodiless_test : walk "f.go" 0 (func_decl absent) [] ≡ none
unfolding walk
bodiless_test = refl

walk_reports_nested_example : walk "f.go" 0 sample_tree [] ≡ (
    if lacks_body sample_tree
    then none
    else some (map (violation_at "f.go") (nested false sample_tree)))
walk_reports_nested_example = walk_reports_nested "f.go" sample_tree

-- A module whose ignored directory holds a file that is not clean.
abbrev sample_module : Files.Env
sample_module = record {
  stat_root = λ root. ok (
      dir_entry "." none (
        Files.cons (file_entry "main.go") (
          Files.cons (dir_entry "vendor" none (Files.cons (file_entry "bad.go") Files.nil))
            (Files.cons (file_entry "README.md") Files.nil))));
  parse_file = λ path.
      if str_eq path "main.go"
      then ok (record { is_generated = false; file = func_decl (present literal_if) })
      else err (message "syntax error");
  rel = λ root path. ok path;
  sort_slice = insertion_sort;
}

main-clean_example :
    ((main sample_module []).0 ≡ 0)
    ↔ (all_clean sample_module (all_visits sample_module (roots_of sample_module [])) ≡ true)
main-clean_example = main-clean sample_module []

-- The directory lists its files in another order than that of their names.
abbrev untidy_module : Files.Env
untidy_module = record {
  stat_root = λ root. ok (
      dir_entry "." none
        (Files.cons (file_entry "b.go") (Files.cons (file_entry "a.go") Files.nil)));
  parse_file = λ path. ok (record { is_generated = false; file = nested_if });
  rel = λ root path. ok path;
  sort_slice = insertion_sort;
}

untidy_found :
    inspect_roots untidy_module (roots_of untidy_module []) []
    ≡ returned (violation_at "b.go" (at_line 2) ∷ violation_at "a.go" (at_line 2) ∷ [])
unfolding inspect_roots walk_dir join_path elements walk
untidy_found = refl

untidy_module-Sorts : Sorts untidy_module
untidy_module-Sorts = record {
  permutes = insertion_sort-perm;
  sorts = λ less vs weak. insertion_sort-IsSorted less weak vs;
}

main-IsInOrder_example :
    Perm
      (main untidy_module []).1
      (violation_at "b.go" (at_line 2) ∷ violation_at "a.go" (at_line 2) ∷ [])
    × IsInOrder (main untidy_module []).1
main-IsInOrder_example =
    main-IsInOrder untidy_module untidy_module-Sorts []
      (violation_at "b.go" (at_line 2) ∷ violation_at "a.go" (at_line 2) ∷ []) untidy_found
