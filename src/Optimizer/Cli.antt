-- ===== src/Optimizer/Cli.antt =====
-- internal/optimizer/cli.go: the runs of the command line tools. A run of a program is the operating
-- system's; its reply is a function of the runs before it, the program and its arguments.
pub mod Success
use geul_asset_optimizer.Base.{
  String, ◌<>◌, Option, none, some, List, ◌∷◌, [], str_eq, ◌≡◌, ◌↔◌, refl, ◌⊎◌, inl, inr, arith,
  if◌then◌else◌,
}
use geul_asset_optimizer.Base.Int.{ℤ}
use geul_asset_optimizer.Base.Text.{trim_space, join}
use geul_asset_optimizer.Errors.{Error, message, wrap, Result, ok, err, ◌>>=◌, refuse_if}
use geul_asset_optimizer.Effects.{M}
use geul_asset_optimizer.Contracts.{MeshOptimizationOptions}
use geul_asset_optimizer.Optimizer.Options.{
  Profile, Options, profile_draco_webp_v1, profile_particle_mesh_v1, build_optimize_args,
  build_particle_mesh_args, options_from_event, profile_from_event,
}
use geul_asset_optimizer.Optimizer.Inspection.{Inspection}
use geul_asset_optimizer.Optimizer.Inspection.Report.{parse_inspect_csv}

pub record Cli : Type 0 where
  pub gltf_transform_path : String
  pub node_path : String
  pub particle_mesh_script_path : String

unfoldable pub new_cli : String → String → String → Cli
new_cli gltf_transform_path node_path particle_mesh_script_path = record {
  gltf_transform_path = gltf_transform_path;
  node_path = node_path;
  particle_mesh_script_path = particle_mesh_script_path;
}

-- What a program writes, and its error, if it fails.
pub record Exit : Type 0 where
  pub stdout : String
  pub stderr : String
  pub failure : Option Error

pub data Event : Type 0 where
  ran : String → List String → Exit → Event

abbrev pub Trace : Type 0
Trace = List Event

pub record Env : Type 0 where
  pub run_program : Trace → String → List String → Exit
  -- `%q`
  pub quote : String → String
  -- the error of a line that is no CSV
  pub line_error : String → Error

abbrev pub exit_result : String → List String → Exit → Option Error → Result String
exit_result binary_path args exit none = ok exit.stdout
exit_result binary_path args exit (some e) = err (
    wrap ("run " <> binary_path <> " " <> join args " " <> ": ") e (": " <> trim_space exit.stderr))

abbrev pub no_output : Result String → Result (Unit {0})
no_output (ok output) = ok tt
no_output (err e) = err e

module _ (env : Env) (cli : Cli) where
  unfoldable pub run : String → List String → M Event String
  run binary_path args tr =
      let exit = env.run_program tr binary_path args in
      (exit_result binary_path args exit exit.failure, ran binary_path args exit ∷ tr)

  unfoldable pub inspect : String → M Event Inspection
  unfolding run
  inspect path tr =
      let (output, tr') =
        run cli.gltf_transform_path ("inspect" ∷ path ∷ "--format" ∷ "csv" ∷ []) tr in
      (output >>= parse_inspect_csv env.line_error, tr')

  unfoldable pub optimize : String → String → Options → M Event (Unit {0})
  unfolding run
  optimize input_path output_path options tr =
      let draco_args = build_optimize_args input_path output_path options in
      let particle_args =
        cli.particle_mesh_script_path ∷ build_particle_mesh_args input_path output_path options in
      if str_eq options.profile profile_draco_webp_v1
      then (let (output, tr') = run cli.gltf_transform_path draco_args tr in
          (no_output output, tr'))
      else if str_eq options.profile profile_particle_mesh_v1
      then (let (output, tr') = run cli.node_path particle_args tr in (no_output output, tr'))
      else (err (message ("unsupported optimization profile " <> env.quote options.profile)), tr)

-- One run of a program, that of the profile, which decides the result.
pub record IsOneRun (cli : Cli) (options : Options) (tr : Trace) (r : Result (Unit {0}) × Trace)
    : Type 0 where
  pub binary_path : String
  pub args : List String
  pub exit : Exit
  pub one_run : r.1 ≡ ran binary_path args exit ∷ tr
  pub result : (r.0 ≡ ok tt) ↔ (exit.failure ≡ none)
  pub tool :
      ((options.profile ≡ profile_draco_webp_v1) × (binary_path ≡ cli.gltf_transform_path))
      ⊎ ((options.profile ≡ profile_particle_mesh_v1) × (binary_path ≡ cli.node_path))

no_output-ok :
    (binary_path : String) (args : List String) (exit : Exit) (e : Option Error)
    → (no_output (exit_result binary_path args exit e) ≡ ok tt) ↔ (e ≡ none)
no_output-ok binary_path args exit none = (λ h. refl, λ h. refl)
no_output-ok binary_path args exit (some e) = ground arith

abbrev options_of : ℤ → Profile → Options
options_of ratio profile = record { target_ratio_percent = ratio; profile = profile }

module _ (env : Env) (cli : Cli) (input_path output_path : String) where
  draco_runs :
      (ratio : ℤ) (tr : Trace)
      → IsOneRun cli
          (options_of ratio profile_draco_webp_v1)
          tr
          (optimize env cli input_path output_path (options_of ratio profile_draco_webp_v1) tr)
  unfolding optimize run
  draco_runs ratio tr =
      let args =
        build_optimize_args input_path output_path (options_of ratio profile_draco_webp_v1) in
      let exit = env.run_program tr cli.gltf_transform_path args in
      record {
        binary_path = cli.gltf_transform_path;
        args = args;
        exit = exit;
        one_run = refl;
        result = no_output-ok cli.gltf_transform_path args exit exit.failure;
        tool = inl (refl, refl);
      }

  particle_runs :
      (ratio : ℤ) (tr : Trace)
      → IsOneRun cli
          (options_of ratio profile_particle_mesh_v1)
          tr
          (optimize env cli input_path output_path (options_of ratio profile_particle_mesh_v1) tr)
  unfolding optimize run
  particle_runs ratio tr =
      let args =
        cli.particle_mesh_script_path
        ∷ build_particle_mesh_args input_path output_path
            (options_of ratio profile_particle_mesh_v1) in
      let exit = env.run_program tr cli.node_path args in
      record {
        binary_path = cli.node_path;
        args = args;
        exit = exit;
        one_run = refl;
        result = no_output-ok cli.node_path args exit exit.failure;
        tool = inr (refl, refl);
      }

  known_profile_runs :
      (options : Options) (tr : Trace)
      → (options.profile ≡ profile_draco_webp_v1) ⊎ (options.profile ≡ profile_particle_mesh_v1)
      → IsOneRun cli options tr (optimize env cli input_path output_path options tr)
  known_profile_runs options tr (inl h) = rw h (draco_runs options.target_ratio_percent tr)
  known_profile_runs options tr (inr h) = rw h (particle_runs options.target_ratio_percent tr)

  accepted_profile :
      (o : MeshOptimizationOptions) (options : Options)
      → options_from_event (some o) ≡ ok options
      → (options.profile ≡ profile_draco_webp_v1) ⊎ (options.profile ≡ profile_particle_mesh_v1)
  unfolding options_from_event profile_from_event ◌>>=◌ refuse_if
  accepted_profile o options h = ground arith

  -- For options that were accepted, one program is run, gltf-transform or node as the profile says, and
  -- the optimization returns no error exactly when the program has none.
  pub accepted_runs_once :
      (o : MeshOptimizationOptions) (options : Options) (tr : Trace)
      → options_from_event (some o) ≡ ok options
      → IsOneRun cli options tr (optimize env cli input_path output_path options tr)
  accepted_runs_once o options tr h = known_profile_runs options tr (accepted_profile o options h)
