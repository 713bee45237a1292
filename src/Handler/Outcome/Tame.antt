-- ===== src/Handler/Outcome/Tame.antt =====
-- With plain services, an action fails with a plain error only: no part of the pipeline returns one
-- of the handler's classified errors.
use geul_asset_optimizer.Base.{
  ◌∷◌, List, ℕ, String, Bool, true, false, Option, none, some, if◌then◌else◌,
}
use geul_asset_optimizer.Base.Int.{ℤ}
use geul_asset_optimizer.Errors.{Error, Result, ok, err}
use geul_asset_optimizer.Contracts.{FailureReason, MeshOptimizationJob}
use geul_asset_optimizer.Optimizer.Options.{Options}
use geul_asset_optimizer.Handler.World.{
  file_opened, Trace, Env, M, continue, ◌>>=◌, pure, raise, as_result,
}
use geul_asset_optimizer.Handler.Validation.{MeshJobSpec}
use geul_asset_optimizer.Handler.Events.{MeshProgress, publish_progress}
use geul_asset_optimizer.Handler.Pipeline.{
  digest, hash_file, DownloadedSource, pipeline_rejected, or_failed, create_job_work_dir,
  get_object_size, download, stat_file, inspect, optimize, upload, file_sha256, download_source,
  optimize_source, clean_up, run_in_dir, run_pipeline,
}
use geul_asset_optimizer.Handler.Outcome.{PlainResult, PlainOption, PlainEnv}

pub record Tame {A : Type 0} (m : M A) : Type 0 where
  pub at : (tr : Trace) → PlainResult (m tr).0

pub Tame-pure : {A : Type 0} (a : A) → Tame (pure a)
unfolding pure
Tame-pure a = record { at = λ tr. tt }

Tame-rejected :
    {A : Type 0} (what : String) (size limit : ℤ)
    → Tame {A = A} (raise (pipeline_rejected what size limit))
unfolding raise pipeline_rejected
Tame-rejected what size limit = record { at = λ tr. tt }

module _ {A B : Type 0} where
  continue_plain :
      (f : A → M B)
      → ((a : A) → Tame (f a))
      → (x : Result A) (tr : Trace) → PlainResult x
      → PlainResult (continue x f tr).0
  continue_plain f kf (ok a) tr h = (kf a).at tr
  continue_plain f kf (err e) tr h = h

  Tame-bind : (m : M A) (f : A → M B) → Tame m → ((a : A) → Tame (f a)) → Tame (m >>= f)
  unfolding ◌>>=◌
  Tame-bind m f km kf = record { at = λ tr. continue_plain f kf (m tr).0 (m tr).1 (km.at tr) }

module _ {A : Type 0} where
  failed_plain :
      (reason : FailureReason) (operation : String) (r : Result A) (tr : Trace)
      → PlainResult r
      → PlainResult (or_failed reason operation (λ _. (r, tr)) tr).0
  unfolding or_failed
  failed_plain reason operation (ok a) tr h = tt
  failed_plain reason operation (err e) tr h = h

  Tame-or_failed :
      (reason : FailureReason) (operation : String) (m : M A)
      → Tame m
      → Tame (or_failed reason operation m)
  unfolding or_failed
  Tame-or_failed reason operation m km = record {
    at = λ tr. failed_plain reason operation (m tr).0 (m tr).1 (km.at tr);
  }

  Tame-if : (b : Bool) (m n : M A) → Tame m → Tame n → Tame (if b then m else n)
  Tame-if true m n km kn = km
  Tame-if false m n km kn = kn

  Tame-clean_up : (env : Env) (dir : String) (m : M A) → Tame m → Tame (clean_up env dir m)
  unfolding clean_up
  Tame-clean_up env dir m km = record { at = λ tr. km.at tr }

as_result_plain : (e : Option Error) → PlainOption e → PlainResult (as_result e)
as_result_plain none h = tt
as_result_plain (some e) h = h

digest_plain : (env : Env) (r : Result (List ℕ)) → PlainResult r → PlainResult (digest env r)
digest_plain env (ok bytes) h = tt
digest_plain env (err e) h = h

module _ (env : Env) (plain : PlainEnv env) where
  publish_progress-Tame :
      (job : MeshOptimizationJob) (progress : MeshProgress)
      → Tame (publish_progress env job progress)
  unfolding publish_progress
  publish_progress-Tame job progress = record { at = λ tr. tt }

  create_job_work_dir-Tame : (id : String) → Tame (create_job_work_dir env id)
  unfolding create_job_work_dir
  create_job_work_dir-Tame id = record { at = λ tr. plain.create_job_work_dir tr id }

  get_object_size-Tame : (key : String) → Tame (get_object_size env key)
  unfolding get_object_size
  get_object_size-Tame key = record { at = λ tr. plain.get_object_size tr key }

  download-Tame : (key path : String) → Tame (download env key path)
  unfolding download
  download-Tame key path = record {
    at = λ tr. as_result_plain (env.download tr key path) (plain.download tr key path);
  }

  stat_file-Tame : (path : String) → Tame (stat_file env path)
  unfolding stat_file
  stat_file-Tame path = record { at = λ tr. plain.stat_file tr path }

  inspect-Tame : (path : String) → Tame (inspect env path)
  unfolding inspect
  inspect-Tame path = record { at = λ tr. plain.inspect tr path }

  optimize-Tame :
      (input output : String) (options : Options) → Tame (optimize env input output options)
  unfolding optimize
  optimize-Tame input output options = record {
    at = λ tr.
        as_result_plain (env.optimize tr input output options)
          (plain.optimize tr input output options);
  }

  upload-Tame : (key path mime : String) → Tame (upload env key path mime)
  unfolding upload
  upload-Tame key path mime = record {
    at = λ tr. as_result_plain (env.upload tr key path mime) (plain.upload tr key path mime);
  }

  hash_file_plain :
      (e : Option Error) (path : String) (tr : Trace)
      → PlainOption e
      → PlainResult (hash_file env e path tr).0
  hash_file_plain (some e) path tr h = h
  hash_file_plain none path tr h =
      digest_plain env (env.copy_stream tr path) (plain.copy_stream tr path)

  file_sha256-Tame : (path : String) → Tame (file_sha256 env path)
  unfolding file_sha256
  file_sha256-Tame path = record {
    at = λ tr.
        hash_file_plain (env.open_file tr path) path (file_opened path (env.open_file tr path) ∷ tr)
          (plain.open_file tr path);
  }

ruleset tame_rules = (
  Tame-pure, Tame-rejected, Tame-bind, Tame-or_failed, Tame-if, Tame-clean_up,
  publish_progress-Tame, create_job_work_dir-Tame, get_object_size-Tame, download-Tame,
  stat_file-Tame, inspect-Tame, optimize-Tame, upload-Tame, file_sha256-Tame,
)

module _ (env : Env) (plain : PlainEnv env) (job : MeshOptimizationJob) (spec : MeshJobSpec) where
  download_source-Tame :
      (dir : String) (max_input_bytes : ℤ) → Tame (download_source env job spec dir max_input_bytes)
  unfolding download_source
  download_source-Tame dir max_input_bytes = search tame_rules depth 12

  optimize_source-Tame :
      (dir : String) (source : DownloadedSource) → Tame (optimize_source env job spec dir source)
  unfolding optimize_source
  optimize_source-Tame dir source = search tame_rules depth 24

  run_in_dir-Tame :
      (max_input_bytes : ℤ) (dir : String) → Tame (run_in_dir env job spec max_input_bytes dir)
  unfolding run_in_dir
  run_in_dir-Tame max_input_bytes dir =
      search (tame_rules, download_source-Tame, optimize_source-Tame)

  pub run_pipeline-Tame : (max_input_bytes : ℤ) → Tame (run_pipeline env job spec max_input_bytes)
  unfolding run_pipeline
  run_pipeline-Tame max_input_bytes = search (tame_rules, run_in_dir-Tame)
