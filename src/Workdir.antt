-- ===== src/Workdir.antt =====
-- internal/workdir/workdir.go: the manager of the job work directories. The file system is an
-- environment, whose replies are functions of the calls so far; a manager is its root.
pub mod Names
pub mod Containment
pub mod Stale
use Prim.Native.Char.{code}
use geul_asset_optimizer.Base.{
  ℕ, suc, String, ◌<>◌, Bool, true, false, not, ◌&&◌, ◌||◌, Option, none, some, List, [], ◌∷◌,
  starts_with, if◌then◌else◌, ◌==◌,
}
use geul_asset_optimizer.Base.Text.{is_empty, trim_space, trim_char}
use geul_asset_optimizer.Base.FilePath.{clean, join_path, separator}
use geul_asset_optimizer.Errors.{Error, message, wrap, Result, ok, err}

pub record DirEntry : Type 0 where
  pub name : String
  pub is_dir : Bool

pub data Event : Type 0 where
  dir_made : String → Option Error → Event
  temp_made : String → String → Result String → Event
  dir_read : String → Result (List DirEntry) → Event
  removed : String → Option Error → Event

abbrev pub Trace : Type 0
Trace = List Event

pub record Env : Type 0 where
  -- `os.MkdirAll`, `os.MkdirTemp`, `os.ReadDir` and `os.RemoveAll`
  pub mkdir_all : Trace → String → Option Error
  pub mkdir_temp : Trace → String → String → Result String
  pub read_dir : Trace → String → Result (List DirEntry)
  pub remove_all : Trace → String → Option Error
  -- `os.IsNotExist`
  pub is_not_exist : Error → Bool

abbrev is_replaced : ℕ → Bool
is_replaced c = c == b'/' || c == 0x5c || c == b' ' || c == b':' || c == 0

-- `strings.NewReplacer("/", "-", "\\", "-", " ", "-", ":", "-", "\x00", "-").Replace(value)`
unfoldable pub replace_special : String → String
replace_special String.[] = ""
replace_special (String.◌∷◌ c s) =
    let rest = replace_special s in
    if is_replaced (code c) then String.◌∷◌ "-" rest else String.◌∷◌ c rest

abbrev pub or_job : String → String
or_job value = if is_empty value then "job" else value

unfoldable pub sanitize : String → String
unfolding replace_special trim_char
sanitize value = or_job (trim_char b'-' (replace_special value))

abbrev pub is_stale : DirEntry → Bool
is_stale entry = entry.is_dir && starts_with entry.name "mesh-"

abbrev made_root : String → Option Error → Result String
made_root root none = ok root
made_root root (some e) = err (wrap "create temp root: " e "")

module _ (env : Env) where
  unfoldable pub new_manager : String → Trace → Result String × Trace
  unfolding trim_space
  new_manager root tr =
      if is_empty (trim_space root)
      then (err (message "temp root is required"), tr)
      else let e = env.mkdir_all tr root in (made_root root e, dir_made root e ∷ tr)

  unfoldable pub create_job_work_dir : String → String → Trace → Result String × Trace
  unfolding sanitize
  create_job_work_dir root job_id tr =
      let prefix = "mesh-" <> sanitize job_id <> "-" in
      let r = env.mkdir_temp tr root prefix in (r, temp_made root prefix r ∷ tr)

  unfoldable pub cleanup_job_work_dir : String → String → Trace → Option Error × Trace
  cleanup_job_work_dir root path tr =
      if not (starts_with (clean path) (clean root <> separator))
      then (some (message ("refusing to remove path outside temp root: " <> path)), tr)
      else let e = env.remove_all tr path in (e, removed path e ∷ tr)

  -- The loop over the entries, with the number of directories removed so far.
  unfoldable pub remove_stale : String → List DirEntry → ℕ → Trace → (ℕ × Option Error) × Trace
  remove_stale root [] count tr = ((count, none), tr)
  remove_stale root (entry ∷ entries) count tr =
      let path = join_path root entry.name in
      let e = env.remove_all tr path in
      let tr' = removed path e ∷ tr in
      let skipped = remove_stale root entries count tr in
      let continued = remove_stale root entries (suc count) tr' in
      if not (is_stale entry)
      then skipped
      else elim e [ none ↦ continued | some x ↦ ((count, some x), tr') ]

  unfoldable pub remove_listed :
      String → Result (List DirEntry) → Trace → (ℕ × Option Error) × Trace
  unfolding remove_stale
  remove_listed root (ok entries) tr = remove_stale root entries 0 tr
  remove_listed root (err e) tr = if env.is_not_exist e then ((0, none), tr) else ((0, some e), tr)

  unfoldable pub cleanup_stale_work_dirs : String → Trace → (ℕ × Option Error) × Trace
  unfolding remove_listed
  cleanup_stale_work_dirs root tr =
      let r = env.read_dir tr root in remove_listed root r (dir_read root r ∷ tr)
