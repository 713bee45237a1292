-- ===== src/Tests/Working.antt =====
-- The processor on the work directory manager of Tests/Files.
use geul_asset_optimizer.Base.{[], refl}
use geul_asset_optimizer.Base.Int.{pos}
use geul_asset_optimizer.Workdir
use geul_asset_optimizer.Handler.World
use geul_asset_optimizer.Handler.World.{Libraries}
use geul_asset_optimizer.Handler.Pipeline.{run_pipeline}
use geul_asset_optimizer.Delivery.Tidy.{Manages, Tidied, run_pipeline-Tidied}
use geul_asset_optimizer.Samples.{sample_env, sample_job}
use geul_asset_optimizer.Tests.Handling.{sample_spec}
use geul_asset_optimizer.Tests.Files.{files, files-MakesTemp, work_not_slash, work_not_here}

abbrev managed : World.Env
managed = record sample_env {
  create_job_work_dir = λ tr id. (Workdir.create_job_work_dir files "/tmp/work" id []).0;
  cleanup_job_work_dir = λ tr dir. (Workdir.cleanup_job_work_dir files "/tmp/work" dir []).0;
}

managed-Manages : Manages managed (λ tr. files) "/tmp/work"
managed-Manages = record { create_wired = λ tr id. refl; cleanup_wired = λ tr dir. refl }

run_pipeline-Tidied_example :
    Tidied managed (λ tr. files) "j1" [] (run_pipeline managed sample_job sample_spec (pos 50) []).1
run_pipeline-Tidied_example =
    run_pipeline-Tidied managed (λ tr. files) "/tmp/work" managed-Manages
      (λ at. files-MakesTemp "/tmp/work") work_not_slash work_not_here sample_job sample_spec
      (pos 50) []
