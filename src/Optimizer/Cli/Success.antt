-- ===== src/Optimizer/Cli/Success.antt =====
-- internal/optimizer/cli.go: which run of a program stands behind a call that succeeds.
use geul_asset_optimizer.Base.{
  String, Bool, true, false, Option, none, some, List, ◌∷◌, [], str_eq, eq_iff, ◌≡◌, refl, ap, ◌⊎◌,
  inl, inr, if◌then◌else◌,
}
use geul_asset_optimizer.Errors.{error_of, Error, Result, ok, err, ◌>>=◌}
use geul_asset_optimizer.Optimizer.Options.{
  Options, profile_draco_webp_v1, profile_particle_mesh_v1, build_optimize_args,
  build_particle_mesh_args,
}
use geul_asset_optimizer.Optimizer.Inspection.{Inspection}
use geul_asset_optimizer.Optimizer.Inspection.Report.{parse_inspect_csv}
use geul_asset_optimizer.Optimizer.Cli.{
  Cli, Exit, Env, Trace, exit_result, no_output, run, inspect, optimize,
}

output_parsed :
    {A : Type 0} (parse : String → Result A) (binary_path : String) (args : List String)
    (exit : Exit) (e : Option Error) (a : A)
    → (exit_result binary_path args exit e >>= parse) ≡ ok a
    → (e ≡ none) × (parse exit.stdout ≡ ok a)
unfolding ◌>>=◌
output_parsed parse binary_path args exit none a h = (refl, h)
output_parsed parse binary_path args exit (some e) a h = cc

no_output-none :
    (binary_path : String) (args : List String) (exit : Exit) (e : Option Error)
    → error_of (no_output (exit_result binary_path args exit e)) ≡ none
    → e ≡ none
no_output-none binary_path args exit none h = refl
no_output-none binary_path args exit (some e) h = cc

module _ (env : Env) (cli : Cli) where
  -- gltf-transform inspected the file without error, and printed what was parsed.
  pub record IsReported (path : String) (inspection : Inspection) (tr : Trace) : Type 0 where
    pub exited :
        (env.run_program tr cli.gltf_transform_path
          ("inspect" ∷ path ∷ "--format" ∷ "csv" ∷ [])).failure
        ≡ none
    pub printed :
        parse_inspect_csv env.line_error
          (env.run_program tr cli.gltf_transform_path
            ("inspect" ∷ path ∷ "--format" ∷ "csv" ∷ [])).stdout
        ≡ ok inspection

  -- The program of the profile converted the input to the output without error.
  abbrev pub Converted : String → String → Options → Trace → Type 0
  Converted input_path output_path options tr =
      ((options.profile ≡ profile_draco_webp_v1)
        × ((env.run_program tr cli.gltf_transform_path
              (build_optimize_args input_path output_path options)).failure
            ≡ none))
      ⊎ ((options.profile ≡ profile_particle_mesh_v1)
          × ((env.run_program tr cli.node_path (
                cli.particle_mesh_script_path
                ∷ build_particle_mesh_args input_path output_path options)).failure
              ≡ none))

  pub inspect-IsReported :
      (path : String) (inspection : Inspection) (tr : Trace)
      → (inspect env cli path tr).0 ≡ ok inspection
      → IsReported path inspection tr
  unfolding inspect run
  inspect-IsReported path inspection tr h =
      let args = "inspect" ∷ path ∷ "--format" ∷ "csv" ∷ [] in
      let exit = env.run_program tr cli.gltf_transform_path args in
      let (exited, printed) = output_parsed _ _ args exit exit.failure inspection h in
      record { exited = exited; printed = printed }

  module _ (input_path output_path : String) (options : Options) (tr : Trace) where
    chosen_program :
        (draco particle : Bool) (r s : Result (Unit {0})) (e : Error) (t u : Trace)
        → (if◌then◌else◌ {A = Result (Unit {0}) × Trace} draco
            (r, t)
            (if particle then (s, u) else (err e, tr))).0
          ≡ ok tt
        → ((draco ≡ true) × (r ≡ ok tt)) ⊎ ((particle ≡ true) × (s ≡ ok tt))
    chosen_program true particle r s e t u h = inl (refl, h)
    chosen_program false true r s e t u h = inr (refl, h)
    chosen_program false false r s e t u h = cc

    pub optimize-Converted :
        (optimize env cli input_path output_path options tr).0 ≡ ok tt
        → Converted input_path output_path options tr
    unfolding optimize run
    optimize-Converted h =
        let draco_args = build_optimize_args input_path output_path options in
        let particle_args =
          cli.particle_mesh_script_path ∷ build_particle_mesh_args input_path output_path options in
        let draco = env.run_program tr cli.gltf_transform_path draco_args in
        let particle = env.run_program tr cli.node_path particle_args in
        elim (chosen_program (str_eq options.profile profile_draco_webp_v1)
          (str_eq options.profile profile_particle_mesh_v1)
          (no_output (exit_result cli.gltf_transform_path draco_args draco draco.failure))
          (no_output (exit_result cli.node_path particle_args particle particle.failure)) _ _ _ h) [
            | inl (same, done) ↦ inl (
              (eq_iff options.profile profile_draco_webp_v1).0 same,
              no_output-none _ draco_args draco draco.failure (ap error_of done),
            )
            | inr (same, done) ↦ inr (
              (eq_iff options.profile profile_particle_mesh_v1).0 same,
              no_output-none _ particle_args particle particle.failure (ap error_of done),
            )
          ]
