-- ===== src/Handler/Outcome/Rejections.antt =====
-- With plain libraries, the validation of internal/handler/validation.go refuses a job with a plain
-- error.
use geul_asset_optimizer.Base.{String, Bool, true, false, Option, none, some}
use geul_asset_optimizer.Errors.{message, Result, ok, err, ◌>>=◌, refuse_if}
use geul_asset_optimizer.Contracts.{
  MediaObjectTarget, Identity, MeshOptimizationJob, MeshOptimizationOptions,
  MeshOptimizationProfile, draco_webp_v1, particle_mesh_v1,
}
use geul_asset_optimizer.Optimizer.Options.{options_from_event, profile_from_event}
use geul_asset_optimizer.Handler.World.{Env, Libraries}
use geul_asset_optimizer.Handler.Validation.{
  validate_media_target, key_error, validate_job_id, validate_identity, validate_output,
  validate_job, new_mesh_job_spec,
}
use geul_asset_optimizer.Handler.Outcome.{PlainResult, PlainEnv}

record Benign {A : Type 0} (r : Result A) : Type 0 where
  plain : PlainResult r

Benign-ok : {A : Type 0} (a : A) → Benign (ok a)
Benign-ok a = record { plain = tt }

Benign-message : {A : Type 0} (text : String) → Benign {A = A} (err (message text))
Benign-message text = record { plain = tt }

Benign-bind :
    {A B : Type 0} (m : Result A) (f : A → Result B)
    → Benign m
    → ((a : A) → Benign (f a))
    → Benign (m >>= f)
unfolding ◌>>=◌
Benign-bind (ok a) f h k = k a
Benign-bind (err e) f h k = record { plain = h.plain }

Benign-refuse_if : (b : Bool) (text : String) → Benign (refuse_if b text)
unfolding refuse_if
Benign-refuse_if true text = Benign-message text
Benign-refuse_if false text = Benign-ok tt

Benign-key_error :
    (lib : Libraries) (field : String) (r : Result String)
    → PlainResult r
    → Benign (key_error lib field r)
unfolding key_error
Benign-key_error lib field (ok key) h = Benign-ok key
Benign-key_error lib field (err e) h = record { plain = h }

ruleset benign_rules = (Benign-ok, Benign-message, Benign-bind, Benign-refuse_if, Benign-key_error)

module _ (env : Env) (plain : PlainEnv env) where
  Benign-validate_media_target :
      (field : String) (target : Option MediaObjectTarget)
      → Benign (validate_media_target env.libraries field target)
  unfolding validate_media_target
  Benign-validate_media_target field none = search benign_rules
  Benign-validate_media_target field (some target) =
      search (benign_rules, plain.media_object_key) depth 8

  Benign-validate_identity :
      (identity : Option Identity) → Benign (validate_identity env.libraries identity)
  unfolding validate_identity
  Benign-validate_identity none = search benign_rules
  Benign-validate_identity (some identity) =
      search (benign_rules, Benign-validate_media_target) depth 12

  Benign-validate_output :
      (output : Option MediaObjectTarget) (id : String)
      → Benign (validate_output env.libraries output id)
  unfolding validate_output
  Benign-validate_output output id = search (benign_rules, Benign-validate_media_target)

  Benign-validate_job_id : (job : MeshOptimizationJob) → Benign (validate_job_id env.libraries job)
  unfolding validate_job_id
  Benign-validate_job_id job = search benign_rules

  Benign-validate_job : (job : MeshOptimizationJob) → Benign (validate_job env.libraries job)
  unfolding validate_job
  Benign-validate_job job =
      search
        (benign_rules, Benign-validate_job_id, Benign-validate_identity, Benign-validate_output)
        depth 8

Benign-profile_from_event : (p : MeshOptimizationProfile) → Benign (profile_from_event p)
unfolding profile_from_event
Benign-profile_from_event draco_webp_v1 = search benign_rules
Benign-profile_from_event particle_mesh_v1 = search benign_rules
Benign-profile_from_event _ = search benign_rules

Benign-options_from_event :
    (options : Option MeshOptimizationOptions) → Benign (options_from_event options)
unfolding options_from_event
Benign-options_from_event none = search benign_rules
Benign-options_from_event (some options) = search (benign_rules, Benign-profile_from_event) depth 8

Benign-new_mesh_job_spec :
    (env : Env)
    → PlainEnv env
    → (job : MeshOptimizationJob) → Benign (new_mesh_job_spec env.libraries job)
unfolding new_mesh_job_spec
Benign-new_mesh_job_spec env plain job =
    search (benign_rules, Benign-validate_job, Benign-options_from_event)

pub plain-new_mesh_job_spec :
    (env : Env)
    → PlainEnv env
    → (job : MeshOptimizationJob) → PlainResult (new_mesh_job_spec env.libraries job)
plain-new_mesh_job_spec env plain job = (Benign-new_mesh_job_spec env plain job).plain

pub plain-validate_job_id :
    (env : Env)
    → PlainEnv env
    → (job : MeshOptimizationJob) → PlainResult (validate_job_id env.libraries job)
plain-validate_job_id env plain job = (Benign-validate_job_id env plain job).plain
