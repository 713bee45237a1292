-- ===== src/Handler/Pipeline/Evidence/Calls.antt =====
-- What each call of the pipeline puts on record when it succeeds.
use geul_asset_optimizer.Base.{
  String, Bool, true, false, Option, none, some, List, ℕ, ◌∷◌, ◌≡◌, refl, ap, sym,
}
use geul_asset_optimizer.Errors.{Error, Result, ok, err}
use geul_asset_optimizer.Contracts.{MeshOptimizationJob}
use geul_asset_optimizer.Optimizer.Options.{Options}
use geul_asset_optimizer.Handler.World.{
  Event, work_dir_created, object_sized, downloaded, file_statted, inspected, optimized,
  file_opened, file_hashed, uploaded, Trace, Env, M, as_result,
}
use geul_asset_optimizer.Handler.Events.{MeshProgress, publish_progress, warn_progress}
use geul_asset_optimizer.Handler.Pipeline.{
  digest, create_job_work_dir, get_object_size, download, stat_file, inspect, optimize, upload,
  file_sha256, hash_file,
}
use geul_asset_optimizer.Handler.Pipeline.Evidence.{
  AllRecorded, AllRecorded-later, AllRecorded-newest, Ensures,
}

module _ (env : Env) (events : List Event) where
  warn_progress-later :
      (e : Option Error) (canceled : Bool) (tr : Trace)
      → AllRecorded env events tr
      → AllRecorded env events (warn_progress env e canceled tr)
  warn_progress-later none canceled tr h = h
  warn_progress-later (some e) true tr h = h
  warn_progress-later (some e) false tr h = AllRecorded-later events _ tr h

  pub publish_progress-Ensures :
      (job : MeshOptimizationJob) (progress : MeshProgress)
      → Ensures
          (AllRecorded env events)
          (publish_progress env job progress)
          (λ u. AllRecorded env events)
  unfolding publish_progress
  publish_progress-Ensures job progress = record {
    ensured = λ tr u h e. warn_progress-later _ _ _ (AllRecorded-later events _ tr h);
  }

  pub create_job_work_dir-Ensures :
      (job_id : String)
      → Ensures
          (AllRecorded env events)
          (create_job_work_dir env job_id)
          (λ dir. AllRecorded env (work_dir_created job_id (ok dir) ∷ events))
  unfolding create_job_work_dir
  create_job_work_dir-Ensures job_id = record {
    ensured =
        λ tr dir h e. AllRecorded-newest events _ _ tr (ap (work_dir_created job_id) (sym e)) e h;
  }

  pub get_object_size-Ensures :
      (key : String)
      → Ensures
          (AllRecorded env events)
          (get_object_size env key)
          (λ n. AllRecorded env (object_sized key (ok n) ∷ events))
  unfolding get_object_size
  get_object_size-Ensures key = record {
    ensured = λ tr n h e. AllRecorded-newest events _ _ tr (ap (object_sized key) (sym e)) e h;
  }

  pub stat_file-Ensures :
      (path : String)
      → Ensures
          (AllRecorded env events)
          (stat_file env path)
          (λ n. AllRecorded env (file_statted path (ok n) ∷ events))
  unfolding stat_file
  stat_file-Ensures path = record {
    ensured = λ tr n h e. AllRecorded-newest events _ _ tr (ap (file_statted path) (sym e)) e h;
  }

  pub inspect-Ensures :
      (path : String)
      → Ensures
          (AllRecorded env events)
          (inspect env path)
          (λ n. AllRecorded env (inspected path (ok n) ∷ events))
  unfolding inspect
  inspect-Ensures path = record {
    ensured = λ tr n h e. AllRecorded-newest events _ _ tr (ap (inspected path) (sym e)) e h;
  }

  as_result-none : (e : Option Error) (u : Unit {0}) → as_result e ≡ ok u → none ≡ e
  as_result-none none u h = refl
  as_result-none (some e) u h = cc

  pub download-Ensures :
      (key path : String)
      → Ensures
          (AllRecorded env events)
          (download env key path)
          (λ u. AllRecorded env (downloaded key path none ∷ events))
  unfolding download
  download-Ensures key path = record {
    ensured = λ tr u h e.
        AllRecorded-newest events _ _ tr (ap (downloaded key path) (as_result-none _ u e))
          (sym (as_result-none _ u e)) h;
  }

  pub optimize-Ensures :
      (input output : String) (options : Options)
      → Ensures
          (AllRecorded env events)
          (optimize env input output options)
          (λ u. AllRecorded env (optimized input output options none ∷ events))
  unfolding optimize
  optimize-Ensures input output options = record {
    ensured = λ tr u h e.
        AllRecorded-newest events _ _ tr
          (ap (optimized input output options) (as_result-none _ u e)) (sym (as_result-none _ u e))
          h;
  }

  pub upload-Ensures :
      (key path mime : String)
      → Ensures
          (AllRecorded env events)
          (upload env key path mime)
          (λ u. AllRecorded env (uploaded key path mime none ∷ events))
  unfolding upload
  upload-Ensures key path mime = record {
    ensured = λ tr u h e.
        AllRecorded-newest events _ _ tr (ap (uploaded key path mime) (as_result-none _ u e))
          (sym (as_result-none _ u e)) h;
  }

  -- The digest is that of the bytes that were read.
  abbrev pub Hashed : String → List ℕ → Trace → Type 0
  Hashed path sum tr =
      (bytes : List ℕ) × (sum ≡ env.sha256 bytes)
      × AllRecorded env (file_hashed path (ok bytes) ∷ events) tr

  digest-ok :
      (r : Result (List ℕ)) (sum : List ℕ)
      → digest env r ≡ ok sum
      → (bytes : List ℕ) × (sum ≡ env.sha256 bytes) × (ok bytes ≡ r)
  digest-ok (ok bytes) sum h = (bytes, cc h, refl)
  digest-ok (err e) sum h = cc

  hash_file-Ensures :
      (outcome : Option Error) (path : String)
      → Ensures (AllRecorded env events) (hash_file env outcome path) (Hashed path)
  hash_file-Ensures (some x) path = record { ensured = λ tr sum h e. cc e }
  hash_file-Ensures none path = record {
    ensured = λ tr sum h e.
        let (bytes, same, read) = digest-ok (env.copy_stream tr path) sum e in
        (
          bytes,
          same,
          AllRecorded-later (file_hashed path (ok bytes) ∷ events) _ _
              (AllRecorded-newest events _ _ _ (ap (file_hashed path) read) (sym read) h),
        );
  }

  pub file_sha256-Ensures :
      (path : String) → Ensures (AllRecorded env events) (file_sha256 env path) (Hashed path)
  unfolding file_sha256
  file_sha256-Ensures path = record {
    ensured = λ tr sum h e.
        (hash_file-Ensures (env.open_file tr path) path).ensured
          (file_opened path (env.open_file tr path) ∷ tr) sum (AllRecorded-later events _ tr h) e;
  }

  pub Ensures-Hashed :
      {A : Type 0} {post : A → Trace → Type 0} (path : String) (sum : List ℕ) (m : M A)
      → ((bytes : List ℕ)
          → sum ≡ env.sha256 bytes
          → Ensures (AllRecorded env (file_hashed path (ok bytes) ∷ events)) m post)
      → Ensures (Hashed path sum) m post
  Ensures-Hashed path sum m h = record {
    ensured = λ tr a (bytes, same, recorded) e. (h bytes same).ensured tr a recorded e;
  }
