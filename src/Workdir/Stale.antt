-- ===== src/Workdir/Stale.antt =====
-- Which directories the removal of stale work directories removes.
use geul_asset_optimizer.Base.{
  ℕ, ◌+◌, String, ◌<>◌, Bool, true, false, Option, none, some, List, [], ◌∷◌, ◌++◌, ◌≡◌, ◌≢◌,
  length,
}
use mathlib.Core.List.{reverse}
use geul_asset_optimizer.Base.FilePath.{join_path}
use geul_asset_optimizer.Errors.{Error}
use geul_asset_optimizer.Workdir.{DirEntry, removed, Trace, Env}

-- The paths that were removed, newest first.
abbrev pub removals : Trace → List String
removals [] = []
removals (removed path none ∷ tr) = path ∷ removals tr
removals (_ ∷ tr) = removals tr

-- The paths in the root of the directories whose name starts with `mesh-`, in the order of the entries;
-- files and other directories are passed over.
pub data Selected (root : String) : List DirEntry → List String → Type 0 where
  nothing : Selected root [] []
  selected :
      (entry : DirEntry) (rest : String) (entries : List DirEntry) (paths : List String)
      → entry.is_dir ≡ true
      → entry.name ≡ "mesh-" <> rest
      → Selected root entries paths
      → Selected root (entry ∷ entries) (join_path root entry.name ∷ paths)
  passed_file :
      (entry : DirEntry) (entries : List DirEntry) (paths : List String)
      → entry.is_dir ≡ false
      → Selected root entries paths
      → Selected root (entry ∷ entries) paths
  passed_name :
      (entry : DirEntry) (entries : List DirEntry) (paths : List String)
      → ((rest : String) → entry.name ≢ "mesh-" <> rest)
      → Selected root entries paths
      → Selected root (entry ∷ entries) paths

-- All the paths were removed, each once and in order, and counted; or the removal of one of them failed,
-- which ended the run with its error, and those before it were removed and counted.
pub data RemovedInOrder (paths : List String) (count : ℕ) (before : List String)
    (result : (ℕ × Option Error) × Trace) : Type 0 where
  all_removed :
      result.0.1 ≡ none
      → result.0.0 ≡ length paths + count
      → removals result.1 ≡ reverse paths ++ before
      → RemovedInOrder paths count before result
  stopped :
      (done rest : List String) (failing : String) (x : Error)
      → paths ≡ done ++ (failing ∷ rest)
      → result.0.1 ≡ some x
      → result.0.0 ≡ length done + count
      → removals result.1 ≡ reverse done ++ before
      → RemovedInOrder paths count before result

module _ (env : Env) (root : String) where
  abbrev Removes : List DirEntry → ℕ → Trace → (ℕ × Option Error) × Trace → Type 0
  Removes entries count tr result =
      (paths : List String) × Selected root entries paths
      × RemovedInOrder paths count (removals tr) result
