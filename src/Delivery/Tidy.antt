-- ===== src/Delivery/Tidy.antt =====
-- A job's work directory from its creation to its removal: the pipeline of internal/handler with the
-- manager of internal/workdir, which cmd/asset-optimizer/main.go hands to it.
use geul_asset_optimizer.Base.{sym, String, Option, [], ◌∷◌, ◌≡◌, ◌≢◌, refl, ◌∙◌, ap}
use geul_asset_optimizer.Base.Int.{ℤ}
use geul_asset_optimizer.Base.FilePath.{clean}
use geul_asset_optimizer.Errors.{Error, Result, ok, err}
use geul_asset_optimizer.Contracts.{internal, MeshOptimizationJob}
use geul_asset_optimizer.Workdir
use geul_asset_optimizer.Workdir.Containment.{cleanup_of_entry, created_entry, MakesTemp}
use geul_asset_optimizer.Handler.World.{
  Trace, Env, ◌>>=◌, continue, work_dir_created, work_dir_cleaned,
}
use geul_asset_optimizer.Handler.Validation.{MeshJobSpec}
use geul_asset_optimizer.Handler.Pipeline.{
  run_pipeline, run_in_dir, clean_up, create_job_work_dir, or_failed, warn_cleanup,
}

-- `deps.newProcessor(..., resources.workDirs, ...)`: the file system of each call is that of its time.
pub record Manages (services : Env) (files : Trace → Workdir.Env) (root : String) : Type 0 where
  pub create_wired :
      (tr : Trace) (job_id : String)
      → services.create_job_work_dir tr job_id
        ≡ (Workdir.create_job_work_dir (files tr) root job_id []).0
  pub cleanup_wired :
      (tr : Trace) (path : String)
      → services.cleanup_job_work_dir tr path
        ≡ (Workdir.cleanup_job_work_dir (files tr) root path []).0

-- The pipeline's calls `after` those `before`: its directory could not be created, and nothing else was
-- called; or its last call but a warning was the cleanup of its directory, whose answer was that of
-- the removal of exactly this directory.
pub data Tidied (services : Env) (files : Trace → Workdir.Env) (job_id : String)
    (before after : Trace) : Type 0 where
  not_created :
      (e : Error)
      → after ≡ work_dir_created job_id (err e) ∷ before
      → Tidied services files job_id before after
  cleaned :
      (dir : String) (at : Trace)
      → services.create_job_work_dir before job_id ≡ ok dir
      → (let e = (files at).remove_all [] dir in
          after ≡ warn_cleanup services e (work_dir_cleaned dir e ∷ at))
      → Tidied services files job_id before after

pair_eq : {A B : Type 0} {p : A × B} {a : A} → p.0 ≡ a → p ≡ (a, p.1)
pair_eq {A} {B} {p} h = ap (λ (x : A). (x, p.1)) h

module _ (services : Env) (files : Trace → Workdir.Env) (root : String)
    (managed : Manages services files root) (temp : (at : Trace) → MakesTemp (files at) root)
    (not_slash : clean root ≢ "/") (not_here : clean root ≢ ".") where
  -- The removal of a directory that was made before.
  removed_later :
      (before at : Trace) (job_id dir : String)
      → services.create_job_work_dir before job_id ≡ ok dir
      → services.cleanup_job_work_dir at dir ≡ (files at).remove_all [] dir
  removed_later before at job_id dir made =
      let (rest, plain, named) =
        created_entry (files before) root job_id (temp before) dir [] _
          (pair_eq (sym (managed.create_wired before job_id) ∙ made)) in
      managed.cleanup_wired at dir
      ∙ ap (λ (r : Option Error × Workdir.Trace). r.0)
          (cleanup_of_entry (files at) root dir rest [] not_slash not_here plain named)

  created_tidied :
      (job : MeshOptimizationJob) (spec : MeshJobSpec) (max_input_bytes : ℤ) (tr : Trace)
      (r : Result String)
      → services.create_job_work_dir tr spec.job_id ≡ r
      → let made =
          or_failed internal "create work dir"
            (λ at. (r, work_dir_created spec.job_id r ∷ at))
            tr in
        Tidied services files spec.job_id tr
          (continue made.0
            (λ dir. clean_up services dir (run_in_dir services job spec max_input_bytes dir))
            made.1).1
  unfolding or_failed clean_up
  created_tidied job spec max_input_bytes tr (err e) made = not_created e refl
  created_tidied job spec max_input_bytes tr (ok dir) made =
      let at =
        (run_in_dir services job spec max_input_bytes dir
          (work_dir_created spec.job_id (ok dir) ∷ tr)).1 in
      cleaned dir at made (
        ap (λ (e : Option Error). warn_cleanup services e (work_dir_cleaned dir e ∷ at))
          (removed_later tr at spec.job_id dir made))

  -- With the manager of the work directories as its service, a pipeline creates no work directory and
  -- makes no other call, or ends with the removal of exactly the directory that it made, whatever else
  -- fails and whatever its job's id is: the cleanup never refuses it. The conditions are that
  -- os.MkdirTemp makes its directory as an entry of the root, a slash behind it, under the pattern's
  -- name with a random text at its end or in place of its last star, as it does for a root with no
  -- separator at its end; and that the root cleans to neither / nor `.`.
  pub run_pipeline-Tidied :
      (job : MeshOptimizationJob) (spec : MeshJobSpec) (max_input_bytes : ℤ) (tr : Trace)
      → Tidied services files spec.job_id tr (run_pipeline services job spec max_input_bytes tr).1
  unfolding run_pipeline ◌>>=◌ create_job_work_dir or_failed
  run_pipeline-Tidied job spec max_input_bytes tr =
      created_tidied job spec max_input_bytes tr (services.create_job_work_dir tr spec.job_id) refl
