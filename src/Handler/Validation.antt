-- ===== src/Handler/Validation.antt =====
-- internal/handler/validation.go
pub mod Accepted
use geul_asset_optimizer.Base.{String, ◌<>◌, Bool, true, false, not, Option, none, some, str_eq}
use geul_asset_optimizer.Base.Text.{is_empty, trim_space}
use geul_asset_optimizer.Errors.{message, wrap, Result, ok, err, ◌>>=◌, ◌>>◌, refuse_if}
use geul_asset_optimizer.Contracts.{
  TranscodeEntityType, MediaObjectTarget, Identity, MeshOptimizationJob, get_target, get_source,
}
use geul_asset_optimizer.Optimizer.Options.{Options, options_from_event}
use geul_asset_optimizer.Handler.World.{Libraries}

pub record MeshJobSpec : Type 0 where
  pub job_id : String
  pub source_key : String
  pub output_key : String
  pub output_target : Option MediaObjectTarget
  pub options : Options

-- `strings.TrimSpace(s) == ""`
abbrev pub is_blank : String → Bool
is_blank s = is_empty (trim_space s)

abbrev is_unspecified : TranscodeEntityType → Bool
is_unspecified TranscodeEntityType.unspecified = true
is_unspecified (TranscodeEntityType.other n) = false

-- `proto.Clone`: the same value, in storage of its own.
abbrev pub clone_identity : Option Identity → Option Identity
clone_identity none = none
clone_identity (some identity) = some identity

module _ (lib : Libraries) where
  open lib use {is_uuid, media_object_key}

  unfoldable pub key_error : String → Result String → Result String
  key_error field (ok key) = ok key
  key_error field (err e) = err (wrap (field <> ": ") e "")

  unfoldable pub validate_media_target : String → Option MediaObjectTarget → Result (Unit {0})
  unfolding key_error
  validate_media_target field none = err (message (field <> " is required"))
  validate_media_target field (some target) = do
    refuse_if (not (is_uuid target.file_id)) (field <> ".file_id must be a UUID")
    refuse_if (not (str_eq target.extension "glb")) (field <> ".extension must be glb")
    refuse_if (not (str_eq target.mime_type "model/gltf-binary"))
        (field <> ".mime_type must be model/gltf-binary")
    expected_key ← key_error field (media_object_key target.file_id target.extension)
    refuse_if (not (str_eq target.object_key expected_key))
        (field <> ".object_key must equal " <> expected_key)

  unfoldable pub validate_job_id : MeshOptimizationJob → Result (Unit {0})
  validate_job_id job = do
    refuse_if (is_blank job.job_id) "job_id is required"
    refuse_if (not (is_uuid job.job_id)) "job_id must be a UUID"

  unfoldable pub validate_identity : Option Identity → Result Identity
  validate_identity none = err (message "identity is required")
  validate_identity (some identity) = do
    refuse_if (is_unspecified identity.entity_type) "identity.entity_type is required"
    refuse_if (is_blank identity.file_id) "identity.file_id is required"
    refuse_if (is_blank identity.entity_id) "identity.entity_id is required"
    validate_media_target "identity.source" identity.source
    refuse_if (not (str_eq (get_target identity.source).file_id identity.file_id))
        "identity.source.file_id must match identity.file_id"
    ok identity

  unfoldable pub validate_output : Option MediaObjectTarget → String → Result (Unit {0})
  validate_output output source_file_id = do
    validate_media_target "output" output
    refuse_if (str_eq (get_target output).file_id source_file_id)
        "output.file_id must differ from identity.file_id"

  unfoldable pub validate_job : MeshOptimizationJob → Result (Unit {0})
  validate_job job = do
    validate_job_id job
    refuse_if (is_blank job.correlation_id) "correlation_id is required"
    identity ← validate_identity job.identity
    validate_output job.output identity.file_id

  unfoldable pub new_mesh_job_spec : MeshOptimizationJob → Result MeshJobSpec
  new_mesh_job_spec job = do
    validate_job job
    options ← options_from_event job.options
    ok (record {
      job_id = trim_space job.job_id;
      source_key = (get_target (get_source job.identity)).object_key;
      output_key = (get_target job.output).object_key;
      output_target = job.output;
      options = options;
    })
