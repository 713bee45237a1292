-- ===== src/Handler/Pipeline/Delivered.antt =====
-- What stands behind the result of a pipeline that succeeded.
use geul_asset_optimizer.Base.{
  String, false, Option, none, some, List, ℕ, [], ◌∷◌, ◌≡◌, refl, subst, sym,
}
use geul_asset_optimizer.Base.Int.{ℤ, ltb_ℤ}
use geul_asset_optimizer.Base.FilePath.{join_path}
use geul_asset_optimizer.Errors.{Error, ok}
use geul_asset_optimizer.Contracts.{
  source_not_found, download_failed, optimization_failed, upload_failed, internal,
  MeshOptimizationJob, get_target,
}
use geul_asset_optimizer.Handler.World.{
  work_dir_cleaned, Event, work_dir_created, object_sized, downloaded, file_statted, inspected,
  optimized, file_hashed, uploaded, Trace, Env, M,
}
use geul_asset_optimizer.Handler.Validation.{MeshJobSpec}
use geul_asset_optimizer.Handler.Events.{
  download_started, analysis_started, optimization_started, output_analysis_started, upload_started,
  PipelineResult,
}
use geul_asset_optimizer.Handler.Pipeline.{
  DownloadedSource, download_source, optimize_source, clean_up, run_in_dir, run_pipeline,
  warn_cleanup,
}
use geul_asset_optimizer.Handler.Pipeline.Evidence.{
  Ensures-weaker, AllRecorded, AllRecorded-later, Ensures, Ensures-bind, Ensures-pure,
  Ensures-unless, or_failed-Ensures,
}
use geul_asset_optimizer.Handler.Pipeline.Evidence.Calls.{
  create_job_work_dir-Ensures, Ensures-Hashed, publish_progress-Ensures, get_object_size-Ensures,
  stat_file-Ensures, inspect-Ensures, download-Ensures, optimize-Ensures, upload-Ensures,
  file_sha256-Ensures,
}

module _ (env : Env) (job : MeshOptimizationJob) (spec : MeshJobSpec) (max_input_bytes : ℤ) where
  -- The source of the job was downloaded and measured, and is not too large, by what the storage stated
  -- before and by its measurement.
  abbrev Downloaded : String → List Event → DownloadedSource → Trace → Type 0
  Downloaded dir events source tr =
      (source.path ≡ join_path dir "source.glb")
      × (ltb_ℤ max_input_bytes source.size ≡ false)
      × ((listed : ℤ) × (ltb_ℤ max_input_bytes listed ≡ false)
          × AllRecorded env
              (file_statted source.path (ok source.size)
                ∷ downloaded spec.source_key source.path none
                ∷ object_sized spec.source_key (ok listed)
                ∷ events)
              tr)

  download_source-Ensures :
      (dir : String) (events : List Event)
      → Ensures
          (AllRecorded env events)
          (download_source env job spec dir max_input_bytes)
          (Downloaded dir events)
  unfolding download_source
  download_source-Ensures dir events =
      let input_path = join_path dir "source.glb" in
      let sized = λ (es : List Event). get_object_size-Ensures env es spec.source_key in
      let fetched = λ (es : List Event). download-Ensures env es spec.source_key input_path in
      let measured = λ (es : List Event). stat_file-Ensures env es input_path in
      Ensures-bind _ _ (publish_progress-Ensures env events job download_started) (λ u.
        Ensures-bind _ _ (or_failed-Ensures source_not_found "inspect source object" _ (sized _))
          (λ n. Ensures-unless (ltb_ℤ max_input_bytes n) _ _ (λ listed_small.
            Ensures-bind _ _ (or_failed-Ensures download_failed "download source GLB" _ (fetched _))
              (λ v.
                Ensures-bind _ _
                  (or_failed-Ensures download_failed "stat downloaded source" _ (measured _))
                  (λ size. Ensures-unless (ltb_ℤ max_input_bytes size) _ _ (λ small.
                    Ensures-pure _ (λ tr recorded. (refl, small, (n, listed_small, recorded)))))))))

  -- The calls behind a result, newest first, by the work directory and the bytes of the optimized file.
  abbrev pub evidence : String → ℤ → List ℕ → PipelineResult → List Event
  evidence dir listed bytes result =
      let input_path = join_path dir "source.glb" in
      let output_path = join_path dir "optimized.glb" in
      uploaded spec.output_key output_path (get_target spec.output_target).mime_type none
      ∷ file_hashed output_path (ok bytes)
      ∷ file_statted output_path (ok result.output_size)
      ∷ inspected output_path (ok result.after)
      ∷ optimized input_path output_path spec.options none
      ∷ inspected input_path (ok result.before)
      ∷ file_statted input_path (ok result.input_size)
      ∷ downloaded spec.source_key input_path none
      ∷ object_sized spec.source_key (ok listed)
      ∷ work_dir_created spec.job_id (ok dir)
      ∷ []

  abbrev pub Delivered : String → PipelineResult → Trace → Type 0
  Delivered dir result tr =
      (ltb_ℤ max_input_bytes result.input_size ≡ false)
      × ((listed : ℤ) × (ltb_ℤ max_input_bytes listed ≡ false)
          × ((bytes : List ℕ) × (result.output_sha256 ≡ env.sha256 bytes)
              × AllRecorded env (evidence dir listed bytes result) tr))

  optimize_source-Ensures :
      (dir : String) (size listed : ℤ)
      → ltb_ℤ max_input_bytes size ≡ false
      → ltb_ℤ max_input_bytes listed ≡ false
      → Ensures
          (AllRecorded env (
            file_statted (join_path dir "source.glb") (ok size)
            ∷ downloaded spec.source_key (join_path dir "source.glb") none
            ∷ object_sized spec.source_key (ok listed)
            ∷ work_dir_created spec.job_id (ok dir)
            ∷ []))
          (optimize_source env job spec dir
            (record { path = join_path dir "source.glb"; size = size }))
          (Delivered dir)
  unfolding optimize_source
  optimize_source-Ensures dir size listed small listed_small =
      let input_path = join_path dir "source.glb" in
      let output_path = join_path dir "optimized.glb" in
      let first = λ (es : List Event). inspect-Ensures env es input_path in
      let reduced =
        λ (es : List Event). optimize-Ensures env es input_path output_path spec.options in
      let second = λ (es : List Event). inspect-Ensures env es output_path in
      let measured = λ (es : List Event). stat_file-Ensures env es output_path in
      let hashed = λ (es : List Event). file_sha256-Ensures env es output_path in
      Ensures-bind _ _ (publish_progress-Ensures env _ job analysis_started) (λ u.
        Ensures-bind _ _ (or_failed-Ensures optimization_failed "inspect source GLB" _ (first _))
          (λ before.
            Ensures-bind _ _ (publish_progress-Ensures env _ job optimization_started) (λ v.
              Ensures-bind _ _ (or_failed-Ensures optimization_failed "optimize GLB" _ (reduced _))
                (λ w.
                  Ensures-bind _ _ (publish_progress-Ensures env _ job output_analysis_started)
                    (λ x.
                      Ensures-bind _ _
                        (or_failed-Ensures optimization_failed "inspect optimized GLB" _ (second _))
                        (λ after.
                          Ensures-bind _ _
                            (or_failed-Ensures optimization_failed "stat optimized GLB" _
                              (measured _))
                            (λ output_size.
                              Ensures-bind _ _
                                (or_failed-Ensures optimization_failed "hash optimized GLB" _
                                  (hashed _))
                                (λ sum. Ensures-Hashed env _ output_path sum _ (λ bytes same.
                                  Ensures-bind _ _
                                    (publish_progress-Ensures env _ job upload_started)
                                    (λ y.
                                      Ensures-bind _ _
                                        (or_failed-Ensures upload_failed "upload optimized GLB" _ (
                                          upload-Ensures env _ spec.output_key output_path
                                            (get_target spec.output_target).mime_type))
                                        (λ z. Ensures-pure _ (λ tr recorded. (
                                          small,
                                          (listed, listed_small, (bytes, same, recorded)),
                                        )))))))))))))

  optimize_at :
      (dir path : String) (size listed : ℤ)
      → path ≡ join_path dir "source.glb"
      → ltb_ℤ max_input_bytes size ≡ false
      → ltb_ℤ max_input_bytes listed ≡ false
      → Ensures
          (AllRecorded env (
            file_statted path (ok size)
            ∷ downloaded spec.source_key path none
            ∷ object_sized spec.source_key (ok listed)
            ∷ work_dir_created spec.job_id (ok dir)
            ∷ []))
          (optimize_source env job spec dir (record { path = path; size = size }))
          (Delivered dir)
  optimize_at dir path size listed at small listed_small =
      subst
        (λ (p : String).
          Ensures
            (AllRecorded env (
              file_statted p (ok size)
              ∷ downloaded spec.source_key p none
              ∷ object_sized spec.source_key (ok listed)
              ∷ work_dir_created spec.job_id (ok dir)
              ∷ []))
            (optimize_source env job spec dir (record { path = p; size = size })) (Delivered dir))
        (sym at) (optimize_source-Ensures dir size listed small listed_small)

  optimize-Downloaded :
      (dir : String) (source : DownloadedSource)
      → Ensures
          (Downloaded dir (work_dir_created spec.job_id (ok dir) ∷ []) source)
          (optimize_source env job spec dir source)
          (Delivered dir)
  optimize-Downloaded dir source = record {
    ensured = λ tr result (at, small, (listed, listed_small, recorded)) e.
        (optimize_at dir source.path source.size listed at small listed_small).ensured tr result
          recorded e;
  }

  Delivered-later :
      (dir : String) (result : PipelineResult) (tr : Trace) (newest : Event)
      → Delivered dir result tr
      → Delivered dir result (newest ∷ tr)
  Delivered-later dir result tr newest (small, (listed, listed_small, (bytes, same, recorded))) =
      let later = AllRecorded-later (evidence dir listed bytes result) newest tr recorded in
      (small, (listed, listed_small, (bytes, same, later)))

  Delivered-cleaned :
      (dir : String) (result : PipelineResult) (tr : Trace) (newest : Event) (e : Option Error)
      → Delivered dir result tr
      → Delivered dir result (warn_cleanup env e (newest ∷ tr))
  Delivered-cleaned dir result tr newest none h = Delivered-later dir result tr newest h
  Delivered-cleaned dir result tr newest (some e) h =
      Delivered-later dir result (newest ∷ tr) _ (Delivered-later dir result tr newest h)

  run_in_dir-Ensures :
      (dir : String)
      → Ensures
          (AllRecorded env (work_dir_created spec.job_id (ok dir) ∷ []))
          (run_in_dir env job spec max_input_bytes dir)
          (Delivered dir)
  unfolding run_in_dir
  run_in_dir-Ensures dir =
      Ensures-bind _ _ (download_source-Ensures dir _) (λ source. optimize-Downloaded dir source)

  clean_up-Ensures :
      (dir : String) (before : Trace → Type 0) (m : M PipelineResult)
      → Ensures before m (Delivered dir)
      → Ensures before (clean_up env dir m) (Delivered dir)
  unfolding clean_up
  clean_up-Ensures dir before m h = record {
    ensured = λ tr a pre e.
        Delivered-cleaned dir a (m tr).1
          (work_dir_cleaned dir (env.cleanup_job_work_dir (m tr).1 dir))
          (env.cleanup_job_work_dir (m tr).1 dir) (h.ensured tr a pre e);
  }

  run_pipeline-Ensures :
      Ensures
        (AllRecorded env [])
        (run_pipeline env job spec max_input_bytes)
        (λ result tr. (dir : String) × Delivered dir result tr)
  unfolding run_pipeline
  run_pipeline-Ensures =
      Ensures-bind _ _
        (or_failed-Ensures internal "create work dir" _
          (create_job_work_dir-Ensures env [] spec.job_id))
        (λ dir.
          Ensures-weaker _ (λ result tr delivered. (dir, delivered))
            (clean_up-Ensures dir _ _ (run_in_dir-Ensures dir)))

  -- A pipeline that succeeds has a work directory and optimized bytes such that: the size that the
  -- storage states for the source and the size of its download are within the limit; its digest is
  -- that of the bytes; and the trace has the creation of the directory, the question for the source's
  -- size, its download into the directory, its measurement, its inspection, the optimization, the
  -- inspection and the measurement of the output, the reading of the bytes, and the upload to the
  -- output key under the output's type: in this order, all successful, with the replies that the
  -- services gave at that time and with the values that the result carries.
  pub run_pipeline-Delivered :
      (tr : Trace) (result : PipelineResult)
      → (run_pipeline env job spec max_input_bytes tr).0 ≡ ok result
      → (dir : String) × Delivered dir result (run_pipeline env job spec max_input_bytes tr).1
  run_pipeline-Delivered tr result h =
      run_pipeline-Ensures.ensured tr result (record { each = tt }) h
