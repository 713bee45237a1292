-- ===== src/Optimizer/Options.antt =====
-- internal/optimizer/options.go. `Profile` is a string type in the source, and an `int32` is an
-- integer. `strconv.FormatFloat(float64(p) / 100, 'f', 2, 64)` prints p hundredths exactly: the
-- nearest double is off by far less than half a hundredth for every 32-bit p.
pub mod Decimal
pub mod Accepted
use Decimal.{print_hundredths}
use geul_asset_optimizer.Base.{
  String, Bool, ◌&&◌, not, Option, none, some, List, [], ◌∷◌, ◌++◌, str_eq, if◌then◌else◌,
}
use geul_asset_optimizer.Base.Int.{ℤ, pos, ltb_ℤ, leb_ℤ, eq_ℤ}
use geul_asset_optimizer.Errors.{Error, message, Result, ok, err, ◌>>=◌, ◌>>◌, refuse_if}
use geul_asset_optimizer.Contracts.{
  CompressionMethod, MeshOptimizationProfile, unspecified, draco_webp_v1, particle_mesh_v1,
  MeshOptimizationOptions,
}

abbrev pub pipeline_version_draco_webp_v1 : String
pipeline_version_draco_webp_v1 = "draco-webp-v1"

abbrev pub pipeline_version_particle_mesh_v1 : String
pipeline_version_particle_mesh_v1 = "particle-mesh-v1"

abbrev texture_compress : String
texture_compress = "webp"

abbrev texture_size : String
texture_size = "1024"

abbrev pub Profile : Type 0
Profile = String

abbrev pub profile_draco_webp_v1 : Profile
profile_draco_webp_v1 = pipeline_version_draco_webp_v1

abbrev pub profile_particle_mesh_v1 : Profile
profile_particle_mesh_v1 = pipeline_version_particle_mesh_v1

abbrev pub pipeline_version : Profile → String
pipeline_version p = p

pub record Options : Type 0 where
  pub target_ratio_percent : ℤ
  pub profile : Profile

unfoldable pub valid_target_ratio_percent : ℤ → Bool
valid_target_ratio_percent p = leb_ℤ (pos 1) p && leb_ℤ p (pos 100)

unfoldable pub profile_from_event : MeshOptimizationProfile → Result Profile
profile_from_event draco_webp_v1 = ok profile_draco_webp_v1
profile_from_event particle_mesh_v1 = ok profile_particle_mesh_v1
profile_from_event _ =
    err (message "profile must be explicitly set to DRACO_WEBP_V1 or PARTICLE_MESH_V1")

unfoldable pub event_value : Profile → MeshOptimizationProfile
event_value p =
    if str_eq p profile_draco_webp_v1
    then draco_webp_v1
    else if str_eq p profile_particle_mesh_v1
    then particle_mesh_v1
    else unspecified

abbrev is_draco : CompressionMethod → Bool
is_draco CompressionMethod.draco = Bool.true
is_draco (CompressionMethod.other n) = Bool.false

unfoldable pub options_from_event : Option MeshOptimizationOptions → Result Options
unfolding valid_target_ratio_percent
options_from_event none = err (message "options are required")
options_from_event (some options) = do
  refuse_if (not (is_draco options.compression_method)) "compression_method must be DRACO"
  refuse_if (not (valid_target_ratio_percent options.target_ratio_percent))
      "target_ratio_percent must be 1..100"
  profile ← profile_from_event options.profile
  ok (record { target_ratio_percent = options.target_ratio_percent; profile = profile })

unfoldable pub simplify_ratio_arg : ℤ → String
unfolding print_hundredths
simplify_ratio_arg p = print_hundredths p

unfoldable pub simplify_error_arg : ℤ → String
simplify_error_arg p =
    if leb_ℤ p (pos 5)
    then "0.05"
    else if ltb_ℤ p (pos 10)
    then "0.02"
    else if leb_ℤ p (pos 20)
    then "0.01"
    else if leb_ℤ p (pos 40)
    then "0.005"
    else "0.001"

-- The arguments that both builders append.
simplify_args : ℤ → List String
simplify_args p =
    if eq_ℤ p (pos 100)
    then "--simplify" ∷ "false" ∷ []
    else "--simplify-ratio" ∷ simplify_ratio_arg p ∷ "--simplify-error" ∷ simplify_error_arg p ∷ []

unfoldable pub build_optimize_args : String → String → Options → List String
unfolding simplify_args
build_optimize_args input_path output_path options =
    "optimize"
    ∷ input_path
    ∷ output_path
    ∷ "--compress"
    ∷ "draco"
    ∷ "--texture-compress"
    ∷ texture_compress
    ∷ "--texture-size"
    ∷ texture_size
    ∷ simplify_args options.target_ratio_percent

unfoldable pub build_particle_mesh_args : String → String → Options → List String
unfolding simplify_args
build_particle_mesh_args input_path output_path options =
    input_path ∷ output_path ∷ simplify_args options.target_ratio_percent
