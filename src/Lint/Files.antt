-- ===== src/Lint/Files.antt =====
-- scripts/ci/no-nested-if.go: the search for files, and `main`. A directory tree stands for the file
-- system; `filepath.WalkDir` visits an entry before its children, and those in their order.
pub mod Visits
pub mod Clean
pub mod Order
use geul_asset_optimizer.Base.{
  ℕ, String, ◌<>◌, Bool, true, false, not, ◌&&◌, ◌||◌, Option, none, some, List, [], ◌∷◌, ltb,
  str_eq, if◌then◌else◌,
}
use Prim.Native.Char.{code}
use Prim.Native.String.{String as Text}
use geul_asset_optimizer.Base.{◌==◌}
use geul_asset_optimizer.Base.Text.{is_empty, split}
use geul_asset_optimizer.Base.FilePath.{join_path}
use geul_asset_optimizer.Errors.{Error, wrap, Result, ok, err}
use geul_asset_optimizer.Lint.{Violation, Node, Found, walk}

-- A directory has the error of reading it, if there is one.
mutual
  pub data Entry : Type 0 where
    file_entry : String → Entry
    dir_entry : String → Option Error → Entries → Entry

  pub data Entries : Type 0 where
    nil : Entries
    cons : Entry → Entries → Entries

pub record ParsedFile : Type 0 where
  -- `ast.IsGenerated`
  pub is_generated : Bool
  pub file : Node

pub record Env : Type 0 where
  -- `os.Lstat` of a root, with what lies below it
  pub stat_root : String → Result Entry
  -- `parser.ParseFile` of a path
  pub parse_file : String → Result ParsedFile
  -- `filepath.Rel`
  pub rel : String → String → Result String
  -- `sort.Slice`, with the order that it is given
  pub sort_slice : (Violation → Violation → Bool) → List Violation → List Violation

-- The violations so far, an error, or a panic.
pub data Outcome : Type 0 where
  returned : List Violation → Outcome
  failed : Error → Outcome
  panicked : Outcome

unfoldable pub and_then : Outcome → (List Violation → Outcome) → Outcome
and_then (returned vs) next = next vs
and_then (failed e) next = failed e
and_then panicked next = panicked

abbrev pub entry_name : Entry → String
entry_name (file_entry name) = name
entry_name (dir_entry name e children) = name

unfoldable pub ignored_directory : String → Bool
ignored_directory name =
    str_eq name ".git"
    || str_eq name "coverage"
    || str_eq name "dist"
    || str_eq name "node_modules"
    || str_eq name "vendor"

unfoldable pub has_suffix : String → String → Bool
has_suffix suffix Text.[] = is_empty suffix
has_suffix suffix (Text.◌∷◌ c s) = str_eq (Text.◌∷◌ c s) suffix || has_suffix suffix s

abbrev last_or : String → List String → String
last_or found [] = found
last_or found (part ∷ parts) = last_or (if is_empty part then found else part) parts

-- `filepath.Base`: the last element that is not empty.
unfoldable pub base : String → String
unfolding split
base path = if is_empty path then "." else last_or "/" (split b'/' path)

unfoldable pub is_go_file : String → Bool
unfolding has_suffix base
is_go_file path = has_suffix ".go" (base path)

unfoldable pub should_skip_directory : String → String → String → Bool
unfolding ignored_directory
should_skip_directory root path name = not (str_eq path root) && ignored_directory name

unfoldable pub of_found : Found → Outcome
of_found none = panicked
of_found (some vs) = returned vs

-- The order of texts is that of their characters.
unfoldable pub text_before : String → String → Bool
text_before s Text.[] = false
text_before Text.[] (Text.◌∷◌ d t) = true
text_before (Text.◌∷◌ c s) (Text.◌∷◌ d t) =
    let rest = text_before s t in ltb (code c) (code d) || (code c == code d) && rest

unfoldable pub before : Violation → Violation → Bool
unfolding text_before
before left right =
    if str_eq left.path right.path
    then ltb left.position.offset right.position.offset
    else text_before left.path right.path

module _ (env : Env) where
  abbrev display : String → Result String → String
  display path (ok shown) = shown
  display path (err e) = path

  unfoldable pub inspect_parsed : String → String → Result ParsedFile → List Violation → Outcome
  unfolding of_found
  inspect_parsed root path (err e) vs = failed (wrap ("parse " <> path <> ": ") e "")
  inspect_parsed root path (ok parsed) vs =
      if parsed.is_generated
      then returned vs
      else of_found (walk (display path (env.rel root path)) 0 parsed.file vs)

  unfoldable pub inspect_file : String → String → List Violation → Outcome
  unfolding inspect_parsed
  inspect_file root path = inspect_parsed root path (env.parse_file path)

  -- What `WalkDir` does with an entry: the directories it is told to skip, the error of reading one,
  -- and the children.
  unfoldable mutual
    unfolding and_then should_skip_directory is_go_file inspect_file

    pub walk_dir : String → String → Entry → List Violation → Outcome
    walk_dir root path (file_entry name) vs = elim (is_go_file path) [
      | true ↦ inspect_file root path vs
      | false ↦ returned vs
    ]
    walk_dir root path (dir_entry name (some e) children) vs =
        elim (should_skip_directory root path name) [ true ↦ returned vs | false ↦ failed e ]
    walk_dir root path (dir_entry name none children) vs =
        elim (should_skip_directory root path name) [
          | true ↦ returned vs
          | false ↦ walk_entries root path children vs
        ]

    pub walk_entries : String → String → Entries → List Violation → Outcome
    walk_entries root path nil vs = returned vs
    walk_entries root path (cons entry rest) vs =
        and_then (walk_dir root (join_path path (entry_name entry)) entry vs)
          λ found. walk_entries root path rest found

  abbrev pub walk_root : String → Result Entry → List Violation → Outcome
  walk_root root (err e) vs = failed e
  walk_root root (ok entry) vs = walk_dir root root entry vs

  unfoldable pub inspect_root : String → List Violation → Outcome
  inspect_root root = walk_root root (env.stat_root root)

  unfoldable pub inspect_roots : List String → List Violation → Outcome
  unfolding and_then inspect_root
  inspect_roots [] vs = returned vs
  inspect_roots (root ∷ roots) vs =
      and_then (inspect_root root vs) λ found. inspect_roots roots found

  -- The exit code, and the violations that are printed. A panic exits with 2.
  unfoldable pub finish : Outcome → ℕ × List Violation
  unfolding before
  finish (returned []) = (0, [])
  finish (returned (v ∷ vs)) = (1, env.sort_slice before (v ∷ vs))
  finish (failed e) = (1, [])
  finish panicked = (2, [])

  unfoldable pub main : List String → ℕ × List Violation
  unfolding inspect_roots finish
  main [] = finish (inspect_roots ("." ∷ []) [])
  main (root ∷ roots) = finish (inspect_roots (root ∷ roots) [])
