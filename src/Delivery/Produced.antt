-- ===== src/Delivery/Produced.antt =====
-- What stands behind an optimized model: the pipeline of internal/handler with the command line tools
-- of internal/optimizer and the object store of internal/storage, which cmd/asset-optimizer/main.go
-- hands to it.
use geul_asset_optimizer.Base.{String, Option, none, [], ◌∷◌, ◌≡◌, refl, sym, ◌∙◌}
use geul_asset_optimizer.Base.Int.{ℤ}
use geul_asset_optimizer.Base.FilePath.{join_path}
use geul_asset_optimizer.Errors.{Error, Result, ok, err, error_of}
use geul_asset_optimizer.Contracts.{MeshOptimizationJob, get_target}
use geul_asset_optimizer.Optimizer.Options.{Options}
use geul_asset_optimizer.Optimizer.Cli
use geul_asset_optimizer.Optimizer.Cli.Success.{
  IsReported, Converted, inspect-IsReported, optimize-Converted,
}
use geul_asset_optimizer.Storage
use geul_asset_optimizer.Storage.Success.{IsFetched, IsStored, download-IsFetched, upload-IsStored}
use geul_asset_optimizer.Handler.World.{
  work_dir_created, Trace, Env, object_sized, downloaded, inspected, optimized, uploaded,
}
use geul_asset_optimizer.Handler.Validation.{MeshJobSpec}
use geul_asset_optimizer.Handler.Events.{PipelineResult}
use geul_asset_optimizer.Handler.Pipeline.{run_pipeline}
use geul_asset_optimizer.Handler.Pipeline.Evidence.{Earlier, Earlier-trans, moment}
use geul_asset_optimizer.Handler.Pipeline.Delivered.{run_pipeline-Delivered}

module _ (tools : Cli.Env) (cli : Cli.Cli) where
  -- The runs of programs that the trace of a processor stands for.
  unfoldable pub programs : Trace → Cli.Trace
  programs [] = []
  programs (inspected path r ∷ tr) = (Cli.inspect tools cli path (programs tr)).1
  programs (optimized input output options e ∷ tr) =
      (Cli.optimize tools cli input output options (programs tr)).1
  programs (_ ∷ tr) = programs tr

module _ (store : Storage.Env) (bucket : String) where
  -- The calls of the store that the trace of a processor stands for.
  unfoldable pub objects : Trace → Storage.Trace
  objects [] = []
  objects (object_sized key r ∷ tr) = (Storage.get_object_size store bucket key (objects tr)).1
  objects (downloaded key path e ∷ tr) = (Storage.download store bucket key path (objects tr)).1
  objects (uploaded key path mime e ∷ tr) =
      (Storage.upload store bucket key path mime (objects tr)).1
  objects (_ ∷ tr) = objects tr

error_of-none : (r : Result (Unit {0})) → error_of r ≡ none → r ≡ ok tt
error_of-none (ok u) h = refl
error_of-none (err e) h = cc

module _ (services : Env) (tools : Cli.Env) (cli : Cli.Cli) (store : Storage.Env)
    (bucket : String) where
  -- `deps.newProcessor(..., resources.storage, meshOptimizer, ...)`
  pub record Equips : Type 0 where
    pub inspect_wired :
        (tr : Trace) (path : String)
        → services.inspect tr path ≡ (Cli.inspect tools cli path (programs tools cli tr)).0
    pub optimize_wired :
        (tr : Trace) (input output : String) (options : Options)
        → services.optimize tr input output options
          ≡ error_of (Cli.optimize tools cli input output options (programs tools cli tr)).0
    pub download_wired :
        (tr : Trace) (key path : String)
        → services.download tr key path
          ≡ error_of (Storage.download store bucket key path (objects store bucket tr)).0
    pub upload_wired :
        (tr : Trace) (key path mime : String)
        → services.upload tr key path mime
          ≡ error_of (Storage.upload store bucket key path mime (objects store bucket tr)).0

  -- In this order: the directory was created for the job, the source was fetched to it, gltf-transform
  -- printed its statistics, the program of the profile converted it, gltf-transform printed those of
  -- the output, and the output was stored. The statistics are those of the result.
  pub record Produced (spec : MeshJobSpec) (dir : String) (result : PipelineResult) (tr : Trace)
      : Type 0 where
    pub created_at : Trace
    pub fetched_at : Trace
    pub first_at : Trace
    pub converted_at : Trace
    pub second_at : Trace
    pub stored_at : Trace
    pub created_before : Earlier (work_dir_created spec.job_id (ok dir)) created_at fetched_at
    pub created : services.create_job_work_dir created_at spec.job_id ≡ ok dir
    pub fetched_before :
        Earlier (downloaded spec.source_key (join_path dir "source.glb") none) fetched_at first_at
    pub first_before :
        Earlier (inspected (join_path dir "source.glb") (ok result.before)) first_at converted_at
    pub converted_before :
        Earlier
          (optimized (join_path dir "source.glb") (join_path dir "optimized.glb") spec.options none)
          converted_at
          second_at
    pub second_before :
        Earlier (inspected (join_path dir "optimized.glb") (ok result.after)) second_at stored_at
    pub stored_before :
        Earlier
          (uploaded spec.output_key
            (join_path dir "optimized.glb")
            (get_target spec.output_target).mime_type
            none)
          stored_at
          tr
    pub fetched :
        IsFetched store bucket spec.source_key
          (join_path dir "source.glb")
          (objects store bucket fetched_at)
    pub first :
        IsReported tools cli
          (join_path dir "source.glb")
          result.before
          (programs tools cli first_at)
    pub converted :
        Converted tools cli
          (join_path dir "source.glb")
          (join_path dir "optimized.glb")
          spec.options
          (programs tools cli converted_at)
    pub second :
        IsReported tools cli
          (join_path dir "optimized.glb")
          result.after
          (programs tools cli second_at)
    pub stored :
        IsStored store bucket spec.output_key
          (join_path dir "optimized.glb")
          (get_target spec.output_target).mime_type
          (objects store bucket stored_at)

  module _ (equips : Equips) where
    went_well :
        (answer : Option Error) (r : Result (Unit {0}))
        → answer ≡ error_of r
        → answer ≡ none
        → r ≡ ok tt
    went_well answer r wired h = error_of-none r (sym wired ∙ h)

    -- With the command line tools as its optimizer and the object store as its storage, a pipeline that
    -- succeeds has, in this order: created a work directory for its job; got the source's object and
    -- copied it to that directory; run
    -- gltf-transform on it; run the program of the profile, with the arguments for the options;
    -- run gltf-transform on the output; and put the output under its key with its type and size.
    -- No run of a program failed, and the statistics of the result are what the two inspections
    -- printed.
    pub run_pipeline-Produced :
        (job : MeshOptimizationJob) (spec : MeshJobSpec) (max_input_bytes : ℤ) (tr : Trace)
        (result : PipelineResult)
        → (run_pipeline services job spec max_input_bytes tr).0 ≡ ok result
        → (dir : String) × Produced spec dir result
            (run_pipeline services job spec max_input_bytes tr).1
    run_pipeline-Produced job spec max_input_bytes tr result h =
        let (dir, (small, (listed, listed_small, (bytes, same, recorded)))) =
          run_pipeline-Delivered services job spec max_input_bytes tr result h in
        let (t1, e1, a1, h1) = moment recorded in
        let (t2, e2, a2, h2) = moment h1 in
        let (t3, e3, a3, h3) = moment h2 in
        let (t4, e4, a4, h4) = moment h3 in
        let (t5, e5, a5, h5) = moment h4 in
        let (t6, e6, a6, h6) = moment h5 in
        let (t7, e7, a7, h7) = moment h6 in
        let (t8, e8, a8, h8) = moment h7 in
        let (t9, e9, a9, h9) = moment h8 in
        let (t10, e10, a10, h10) = moment h9 in
        (
          dir,
          record {
            created_at = t10;
            fetched_at = t8;
            created_before = Earlier-trans _ _ _ _ _ e9 e10;
            created = a10;
            first_at = t6;
            converted_at = t5;
            second_at = t4;
            stored_at = t1;
            fetched_before = Earlier-trans _ _ _ _ _ e7 e8;
            first_before = e6;
            converted_before = e5;
            second_before = Earlier-trans _ _ _ _ _ (Earlier-trans _ _ _ _ _ e2 e3) e4;
            stored_before = e1;
            fetched =
                download-IsFetched store bucket _ _ _
                  (went_well _ _ (equips.download_wired t8 _ _) a8);
            first = inspect-IsReported tools cli _ _ _ (sym (equips.inspect_wired t6 _) ∙ a6);
            converted =
                optimize-Converted tools cli _ _ _ _
                  (went_well _ _ (equips.optimize_wired t5 _ _ _) a5);
            second = inspect-IsReported tools cli _ _ _ (sym (equips.inspect_wired t4 _) ∙ a4);
            stored =
                upload-IsStored store bucket _ _ _ _
                  (went_well _ _ (equips.upload_wired t1 _ _ _) a1);
          },
        )
