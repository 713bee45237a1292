-- ===== src/Handler/Pipeline/Atomic.antt =====
-- internal/handler/pipeline.go: that the output is stored exactly when there is a result.
use geul_asset_optimizer.Base.{
  String, Bool, true, false, Option, none, some, List, [], ◌∷◌, ◌≡◌, refl, ◌∙◌, if◌then◌else◌,
}
use geul_asset_optimizer.Base.Int.{ℤ, ltb_ℤ}
use geul_asset_optimizer.Errors.{Error, Result, ok, err, is_err}
use geul_asset_optimizer.Contracts.{FailureReason, upload_failed, MeshOptimizationJob}
use geul_asset_optimizer.Optimizer.Options.{Options}
use geul_asset_optimizer.Effects.{Keeps, Keeps-bind, Keeps-raise, Keeps-pure}
use geul_asset_optimizer.Handler.World.{
  as_result, continue, uploaded, progress_published, work_dir_cleaned, Trace, Env, M, ◌>>=◌, pure,
  raise,
}
use geul_asset_optimizer.Handler.Validation.{MeshJobSpec}
use geul_asset_optimizer.Handler.Events.{
  MeshProgress, publish_progress, warn_progress, download_started, analysis_started,
  optimization_started, output_analysis_started, upload_started,
}
use geul_asset_optimizer.Handler.Pipeline.{
  DownloadedSource, or_failed, create_job_work_dir, get_object_size, download, stat_file, inspect,
  optimize, upload, file_sha256, hash_file, download_source, optimize_source, warn_cleanup,
  clean_up, run_in_dir, run_pipeline,
}

-- The keys under which objects were stored, newest first.
unfoldable pub stored_keys : Trace → List String
stored_keys [] = []
stored_keys (uploaded key path mime none ∷ tr) = key ∷ stored_keys tr
stored_keys (_ ∷ tr) = stored_keys tr

-- A call that leaves the store as it was.
abbrev Idle : {A : Type 0} → M A → Type 0
Idle m = (x : List String) → Keeps stored_keys x m

-- An action that stores one object, under this key, exactly when it succeeds.
record Commits {A : Type 0} (key : String) (m : M A) : Type 0 where
  commits :
      (tr : Trace)
      → stored_keys (m tr).1 ≡ (if is_err (m tr).0 then stored_keys tr else key ∷ stored_keys tr)

module _ {A B : Type 0} (key : String) where
  continued :
      (r : Result A) (tr before : Trace) (f : A → M B)
      → stored_keys tr ≡ stored_keys before
      → ((a : A) → Commits key (f a))
      → stored_keys (continue r f tr).1
        ≡ (if is_err (continue r f tr).0 then stored_keys before else key ∷ stored_keys before)
  continued (ok a) tr before f same h = (h a).commits tr ∙ rw same refl
  continued (err e) tr before f same h = same

  Commits-bind :
      (m : M A) (f : A → M B) → Idle m → ((a : A) → Commits key (f a)) → Commits key (m >>= f)
  unfolding ◌>>=◌
  Commits-bind m f idle h = record {
    commits = λ tr. continued (m tr).0 (m tr).1 tr f ((idle (stored_keys tr)).keeps tr refl) h;
  }

module _ {A : Type 0} (key : String) where
  Commits-unless :
      (guard : Bool) (e : Error) (k : M A)
      → Commits key k
      → Commits key (if guard then raise e else k)
  unfolding raise
  Commits-unless true e k h = record { commits = λ tr. refl }
  Commits-unless false e k h = h

module _ {A : Type 0} (reason : FailureReason) (operation : String) where
  classified :
      (r : Result A) (tr : Trace)
      → stored_keys (or_failed reason operation (λ u. (r, u)) tr).1 ≡ stored_keys tr
  unfolding or_failed
  classified (ok a) tr = refl
  classified (err e) tr = refl

  Idle-or_failed : (m : M A) → Idle m → Idle (or_failed reason operation m)
  unfolding or_failed
  Idle-or_failed m idle x = record {
    keeps = λ tr h. classified (m tr).0 (m tr).1 ∙ (idle x).keeps tr h;
  }

module _ (env : Env) where
  Idle-create_job_work_dir : (job_id : String) → Idle (create_job_work_dir env job_id)
  unfolding create_job_work_dir stored_keys
  Idle-create_job_work_dir job_id x = record { keeps = λ tr h. h }

  Idle-get_object_size : (key : String) → Idle (get_object_size env key)
  unfolding get_object_size stored_keys
  Idle-get_object_size key x = record { keeps = λ tr h. h }

  Idle-download : (key path : String) → Idle (download env key path)
  unfolding download stored_keys
  Idle-download key path x = record { keeps = λ tr h. h }

  Idle-stat_file : (path : String) → Idle (stat_file env path)
  unfolding stat_file stored_keys
  Idle-stat_file path x = record { keeps = λ tr h. h }

  Idle-inspect : (path : String) → Idle (inspect env path)
  unfolding inspect stored_keys
  Idle-inspect path x = record { keeps = λ tr h. h }

  Idle-optimize :
      (input output : String) (options : Options) → Idle (optimize env input output options)
  unfolding optimize stored_keys
  Idle-optimize input output options x = record { keeps = λ tr h. h }

  Idle-hash_file : (e : Option Error) (path : String) → Idle (hash_file env e path)
  unfolding stored_keys
  Idle-hash_file none path x = record { keeps = λ tr h. h }
  Idle-hash_file (some e) path x = record { keeps = λ tr h. h }

  Idle-file_sha256 : (path : String) → Idle (file_sha256 env path)
  unfolding file_sha256 stored_keys
  Idle-file_sha256 path x = record {
    keeps = λ tr h. (Idle-hash_file (env.open_file tr path) path x).keeps _ h;
  }

  warn_progress-stored_keys :
      (e : Option Error) (canceled : Bool) (tr : Trace)
      → stored_keys (warn_progress env e canceled tr) ≡ stored_keys tr
  unfolding stored_keys
  warn_progress-stored_keys none canceled tr = refl
  warn_progress-stored_keys (some e) true tr = refl
  warn_progress-stored_keys (some e) false tr = refl

  Idle-publish_progress :
      (job : MeshOptimizationJob) (progress : MeshProgress)
      → Idle (publish_progress env job progress)
  unfolding publish_progress stored_keys
  Idle-publish_progress job progress x = record {
    keeps = λ tr h. warn_progress-stored_keys _ _ (progress_published _ _ ∷ tr) ∙ h;
  }

  upload_answered :
      {A : Type 0} (key path mime : String) (a : A) (e : Option Error) (tr : Trace)
      → let uploading =
          or_failed upload_failed "upload optimized GLB"
            (λ u. (as_result e, uploaded key path mime e ∷ tr)) in
        let (r, tr') = (uploading >>= λ u. pure a) tr in
        stored_keys tr' ≡ (if is_err r then stored_keys tr else key ∷ stored_keys tr)
  unfolding or_failed pure stored_keys ◌>>=◌
  upload_answered key path mime a none tr = refl
  upload_answered key path mime a (some e) tr = refl

  Commits-upload :
      {A : Type 0} (key path mime : String) (a : A)
      → Commits key (
          or_failed upload_failed "upload optimized GLB" (upload env key path mime) >>= λ u. pure a)
  unfolding upload or_failed ◌>>=◌
  Commits-upload key path mime a = record {
    commits = λ tr. upload_answered key path mime a (env.upload tr key path mime) tr;
  }

  warn_cleanup-stored_keys :
      (e : Option Error) (tr : Trace) → stored_keys (warn_cleanup env e tr) ≡ stored_keys tr
  unfolding stored_keys
  warn_cleanup-stored_keys none tr = refl
  warn_cleanup-stored_keys (some e) tr = refl

  Commits-clean_up :
      {A : Type 0} (key dir : String) (m : M A) → Commits key m → Commits key (clean_up env dir m)
  unfolding clean_up stored_keys
  Commits-clean_up key dir m h = record {
    commits = λ tr. warn_cleanup-stored_keys _ (work_dir_cleaned dir _ ∷ (m tr).1) ∙ h.commits tr;
  }

module _ (env : Env) (job : MeshOptimizationJob) (spec : MeshJobSpec) (max_input_bytes : ℤ) where
  Idle-raise : {A : Type 0} (e : Error) → Idle (raise {A = A} e)
  Idle-raise e x = Keeps-raise stored_keys x e

  Idle-unless :
      {A : Type 0} (guard : Bool) (e : Error) (k : M A)
      → Idle k
      → Idle (if guard then raise e else k)
  Idle-unless true e k h = Idle-raise e
  Idle-unless false e k h = h

  Idle-bind :
      {A B : Type 0} (m : M A) (f : A → M B) → Idle m → ((a : A) → Idle (f a)) → Idle (m >>= f)
  Idle-bind m f hm hf x = Keeps-bind stored_keys x (hm x) (λ a. hf a x)

  Idle-download_source : (dir : String) → Idle (download_source env job spec dir max_input_bytes)
  unfolding download_source
  Idle-download_source dir = Idle-bind _ _ (Idle-publish_progress env job download_started) (λ u.
      Idle-bind _ _ (Idle-or_failed _ _ _ (Idle-get_object_size env spec.source_key)) (λ n.
        Idle-unless (ltb_ℤ max_input_bytes n) _ _ (
          Idle-bind _ _ (Idle-or_failed _ _ _ (Idle-download env spec.source_key _)) (λ v.
            Idle-bind _ _ (Idle-or_failed _ _ _ (Idle-stat_file env _)) (λ size.
              Idle-unless (ltb_ℤ max_input_bytes size) _ _ (λ x. Keeps-pure stored_keys x _))))))

  optimize_source-Commits :
      (dir : String) (source : DownloadedSource)
      → Commits spec.output_key (optimize_source env job spec dir source)
  unfolding optimize_source
  optimize_source-Commits dir source =
      Commits-bind _ _ _ (Idle-publish_progress env job analysis_started) (λ u.
        Commits-bind _ _ _ (Idle-or_failed _ _ _ (Idle-inspect env _)) (λ before.
          Commits-bind _ _ _ (Idle-publish_progress env job optimization_started) (λ v.
            Commits-bind _ _ _ (Idle-or_failed _ _ _ (Idle-optimize env _ _ _)) (λ w.
              Commits-bind _ _ _ (Idle-publish_progress env job output_analysis_started) (λ x.
                Commits-bind _ _ _ (Idle-or_failed _ _ _ (Idle-inspect env _)) (λ after.
                  Commits-bind _ _ _ (Idle-or_failed _ _ _ (Idle-stat_file env _)) (λ size.
                    Commits-bind _ _ _ (Idle-or_failed _ _ _ (Idle-file_sha256 env _)) (λ sum.
                      Commits-bind _ _ _ (Idle-publish_progress env job upload_started)
                        (λ y. Commits-upload env spec.output_key _ _ _)))))))))

  run_pipeline-Commits : Commits spec.output_key (run_pipeline env job spec max_input_bytes)
  unfolding run_pipeline run_in_dir
  run_pipeline-Commits =
      Commits-bind _ _ _ (Idle-or_failed _ _ _ (Idle-create_job_work_dir env spec.job_id)) (λ dir.
        Commits-clean_up env spec.output_key dir _
          (Commits-bind _ _ _ (Idle-download_source dir) (optimize_source-Commits dir)))

  -- A pipeline that gives a result has stored one object, under the output key of the job, and one that
  -- fails, at whatever step, has stored none.
  pub run_pipeline-stored_keys :
      (tr : Trace)
      → let (r, tr') = run_pipeline env job spec max_input_bytes tr in
        stored_keys tr' ≡ (if is_err r then stored_keys tr else spec.output_key ∷ stored_keys tr)
  run_pipeline-stored_keys tr = run_pipeline-Commits.commits tr
