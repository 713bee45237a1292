-- ===== src/Optimizer/Options/Accepted.antt =====
-- Which options of a job are accepted, and what becomes of them.
use geul_asset_optimizer.Base.{
  subst, ◌↔◌, ◌∙◌, sym, eq_iff, true, some, ◌≡◌, refl, ◌⊎◌, inl, inr, arith,
}
use geul_asset_optimizer.Base.Int.{pos, leb_ℤ}
use geul_asset_optimizer.Errors.{ok_injective, ok, ◌>>=◌, refuse_if}
use geul_asset_optimizer.Contracts.{
  MeshOptimizationProfile, draco, draco_webp_v1, particle_mesh_v1, MeshOptimizationOptions,
}
use geul_asset_optimizer.Optimizer.Options.{
  Profile, profile_draco_webp_v1, profile_particle_mesh_v1, Options, profile_from_event,
  event_value, options_from_event,
}

-- Draco compression, a ratio of 1 to 100 percent, and a profile that the program knows.
pub record IsAcceptable (o : MeshOptimizationOptions) : Type 0 where
  pub compression_method : o.compression_method ≡ draco
  pub at_least_one : leb_ℤ (pos 1) o.target_ratio_percent ≡ true
  pub at_most_hundred : leb_ℤ o.target_ratio_percent (pos 100) ≡ true
  pub profile : (o.profile ≡ draco_webp_v1) ⊎ (o.profile ≡ particle_mesh_v1)

-- Acceptable options are accepted, with their ratio, and with a profile that is announced as theirs.
pub options_from_event_accepts :
    (o : MeshOptimizationOptions)
    → IsAcceptable o
    → (options : Options) × (options_from_event (some o) ≡ ok options)
      × (options.target_ratio_percent ≡ o.target_ratio_percent)
      × (event_value options.profile ≡ o.profile)
unfolding options_from_event profile_from_event event_value ◌>>=◌ refuse_if
options_from_event_accepts o h =
    let r = h.at_least_one in
    let m = h.at_most_hundred in
    let c = h.compression_method in
    elim h.profile [
      | inl d ↦ (
        record { target_ratio_percent = o.target_ratio_percent; profile = profile_draco_webp_v1 },
        ground (arith, h, d),
        refl,
        ground (arith, d),
      )
      | inr d ↦ (
        record {
          target_ratio_percent = o.target_ratio_percent;
          profile = profile_particle_mesh_v1;
        },
        ground (arith, h, d),
        refl,
        ground (arith, d),
      )
    ]

-- Only acceptable options are accepted.
pub options_from_event_only :
    (o : MeshOptimizationOptions) (options : Options)
    → options_from_event (some o) ≡ ok options
    → IsAcceptable o
unfolding options_from_event profile_from_event ◌>>=◌ refuse_if
options_from_event_only o options h = ground arith

-- What the program works with for the options of a job: their ratio, and the profile that it announces
-- as theirs.
pub record IsReadAs (o : MeshOptimizationOptions) (options : Options) : Type 0 where
  pub acceptable : IsAcceptable o
  pub target_ratio_percent : options.target_ratio_percent ≡ o.target_ratio_percent
  pub announced : event_value options.profile ≡ o.profile

known_profile :
    (p : Profile) (q : MeshOptimizationProfile)
    → event_value p ≡ q
    → (q ≡ draco_webp_v1) ⊎ (q ≡ particle_mesh_v1)
    → profile_from_event q ≡ ok p
unfolding event_value profile_from_event
known_profile p q h k =
    ground (arith, eq_iff p profile_draco_webp_v1, eq_iff p profile_particle_mesh_v1)

accepted_as :
    (o : MeshOptimizationOptions) (options : Options)
    → IsReadAs o options
    → options_from_event (some o) ≡ ok options
unfolding options_from_event ◌>>=◌ refuse_if
accepted_as o options r =
    let k = known_profile options.profile o.profile r.announced r.acceptable.profile in
    ground (arith, k, r.acceptable, r.target_ratio_percent)

read_as :
    (o : MeshOptimizationOptions) (options : Options)
    → options_from_event (some o) ≡ ok options
    → IsReadAs o options
read_as o options h =
    let acceptable = options_from_event_only o options h in
    let (made, reads, ratio, announced) = options_from_event_accepts o acceptable in
    let same : made ≡ options = ok_injective (sym reads ∙ h) in
    record {
      acceptable = acceptable;
      target_ratio_percent =
          subst (λ (x : Options). x.target_ratio_percent ≡ o.target_ratio_percent) same ratio;
      announced = subst (λ (x : Options). event_value x.profile ≡ o.profile) same announced;
    }

-- The options of a job are read as some options of the program exactly when they ask for Draco
-- compression, a ratio of 1 to 100 percent and a profile that the program knows, and those options
-- have this ratio and a profile that is announced as the one asked for.
pub options_from_event_iff :
    (o : MeshOptimizationOptions) (options : Options)
    → (options_from_event (some o) ≡ ok options) ↔ IsReadAs o options
options_from_event_iff o options = (read_as o options, accepted_as o options)
