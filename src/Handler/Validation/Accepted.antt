-- ===== src/Handler/Validation/Accepted.antt =====
-- What a job that passes validation is.
use geul_asset_optimizer.Base.{
  ap, sym, ◌∙◌, subst, String, Bool, true, false, Option, none, some, str_eq, ◌≡◌, refl, arith,
}
use geul_asset_optimizer.Errors.{Result, ok, err, ◌>>=◌, refuse_if}
use geul_asset_optimizer.Contracts.{
  MediaObjectTarget, Identity, MeshOptimizationJob, get_target, get_source,
}
use geul_asset_optimizer.Optimizer.Options.{options_from_event}
use geul_asset_optimizer.Handler.World.{Libraries}
use geul_asset_optimizer.Handler.Validation.{
  is_blank, MeshJobSpec, key_error, validate_media_target, validate_job_id, validate_identity,
  validate_output, validate_job, new_mesh_job_spec,
}

bind_ok :
    {A B : Type 0} (r : Result A) (f : A → Result B) (b : B)
    → (r >>= f) ≡ ok b
    → (a : A) × (r ≡ ok a) × (f a ≡ ok b)
unfolding ◌>>=◌
bind_ok (ok a) f b h = (a, refl, h)
bind_ok (err e) f b h = cc

ok_injective : {A : Type 0} (a b : A) → ok a ≡ ok b → a ≡ b
ok_injective a b h = cc

refuse_ok : (b : Bool) (s : String) (u : Unit {0}) → refuse_if b s ≡ ok u → b ≡ false
unfolding refuse_if
refuse_ok b s u h = ground arith

key_error_ok :
    (lib : Libraries) (field : String) (r : Result String) (key : String)
    → key_error lib field r ≡ ok key
    → r ≡ ok key
unfolding key_error
key_error_ok lib field (ok k) key h = h
key_error_ok lib field (err e) key h = cc

module _ (lib : Libraries) where
  -- A GLB model under the key that its file id stands for.
  pub record IsGlb (target : MediaObjectTarget) : Type 0 where
    pub file_id : lib.is_uuid target.file_id ≡ true
    pub extension : str_eq target.extension "glb" ≡ true
    pub mime_type : str_eq target.mime_type "model/gltf-binary" ≡ true
    pub object_key :
        (key : String) × (lib.media_object_key target.file_id target.extension ≡ ok key)
        × (str_eq target.object_key key ≡ true)

  validate_media_target-IsGlb :
      (field : String) (t : Option MediaObjectTarget) (u : Unit {0})
      → validate_media_target lib field t ≡ ok u
      → (target : MediaObjectTarget) × (t ≡ some target) × IsGlb target
  unfolding validate_media_target
  validate_media_target-IsGlb field none u h = cc
  validate_media_target-IsGlb field (some target) u h =
      let (u1, e1, h1) = bind_ok _ _ _ h in
      let (u2, e2, h2) = bind_ok _ _ _ h1 in
      let (u3, e3, h3) = bind_ok _ _ _ h2 in
      let (key, e4, h4) = bind_ok _ _ _ h3 in
      (
        target,
        refl,
        record {
          file_id = ground (arith, refuse_ok _ _ u1 e1);
          extension = ground (arith, refuse_ok _ _ u2 e2);
          mime_type = ground (arith, refuse_ok _ _ u3 e3);
          object_key = (key, key_error_ok lib field _ key e4, ground (arith, refuse_ok _ _ u h4));
        },
      )

  -- The entity whose model is optimized, and the model itself.
  pub record IsSource (identity : Identity) (source : MediaObjectTarget) : Type 0 where
    pub present : identity.source ≡ some source
    pub glb : IsGlb source
    pub file_id : str_eq source.file_id identity.file_id ≡ true
    pub entity_id : is_blank identity.entity_id ≡ false

  validate_identity-IsSource :
      (i : Option Identity) (identity : Identity)
      → validate_identity lib i ≡ ok identity
      → (i ≡ some identity) × ((source : MediaObjectTarget) × IsSource identity source)
  unfolding validate_identity
  validate_identity-IsSource none identity h = cc
  validate_identity-IsSource (some given) identity h =
      let (u1, e1, h1) = bind_ok _ _ _ h in
      let (u2, e2, h2) = bind_ok _ _ _ h1 in
      let (u3, e3, h3) = bind_ok _ _ _ h2 in
      let (u4, e4, h4) = bind_ok _ _ _ h3 in
      let (u5, e5, h5) = bind_ok _ _ _ h4 in
      let (source, at, glb) = validate_media_target-IsGlb "identity.source" given.source u4 e4 in
      let same : given ≡ identity = cc h5 in
      (
        ap some same,
        (
          source,
          subst (λ (x : Identity). IsSource x source) same
              (record {
                present = at;
                glb = glb;
                file_id = ground (arith, at, refuse_ok _ _ u5 e5);
                entity_id = refuse_ok _ _ u3 e3;
              }),
        ),
      )

  -- What a job that passes says: its ids, its source, and an output that is another file.
  pub record IsValid (job : MeshOptimizationJob) : Type 0 where
    pub job_id : lib.is_uuid job.job_id ≡ true
    pub correlation_id : is_blank job.correlation_id ≡ false
    pub identity : Identity
    pub identified : job.identity ≡ some identity
    pub source : MediaObjectTarget
    pub is_source : IsSource identity source
    pub output : MediaObjectTarget
    pub targeted : job.output ≡ some output
    pub glb : IsGlb output
    pub distinct : str_eq output.file_id identity.file_id ≡ false

  validate_job-IsValid :
      (job : MeshOptimizationJob) (u : Unit {0}) → validate_job lib job ≡ ok u → IsValid job
  unfolding validate_job validate_job_id validate_output
  validate_job-IsValid job u h =
      let (u1, e1, h1) = bind_ok _ _ _ h in
      let (u2, e2, h2) = bind_ok _ _ _ h1 in
      let (identity, e3, h3) = bind_ok _ _ _ h2 in
      let (u4, e4, h4) = bind_ok _ _ _ e1 in
      let (u5, e5, h5) = bind_ok _ _ _ h3 in
      let (identified, (source, is_source)) = validate_identity-IsSource job.identity identity e3 in
      let (output, targeted, glb) = validate_media_target-IsGlb "output" job.output u5 e5 in
      record {
        job_id = ground (arith, refuse_ok _ _ _ h4);
        correlation_id = refuse_ok _ _ u2 e2;
        identity = identity;
        identified = identified;
        source = source;
        is_source = is_source;
        output = output;
        targeted = targeted;
        glb = glb;
        distinct = ground (arith, targeted, refuse_ok _ _ _ h5);
      }

  source_key-of :
      (job : MeshOptimizationJob) (valid : IsValid job)
      → (get_target (get_source job.identity)).object_key ≡ valid.source.object_key
  source_key-of job valid = rw (valid.identified, valid.is_source.present) refl

  output_key-of :
      (job : MeshOptimizationJob) (valid : IsValid job)
      → (get_target job.output).object_key ≡ valid.output.object_key
  output_key-of job valid = rw valid.targeted refl

  -- A job gets a specification only if its id is a UUID, it has a correlation id, its identity names an
  -- entity and a GLB source with the identity's file id, and its output is a GLB target with another
  -- file id. The specification has the source's and the output's object keys, and the options that
  -- the job's were accepted as.
  pub new_mesh_job_spec-IsValid :
      (job : MeshOptimizationJob) (spec : MeshJobSpec)
      → new_mesh_job_spec lib job ≡ ok spec
      → (valid : IsValid job) × (spec.source_key ≡ valid.source.object_key)
        × (spec.output_key ≡ valid.output.object_key)
        × (options_from_event job.options ≡ ok spec.options)
  unfolding new_mesh_job_spec
  new_mesh_job_spec-IsValid job spec h =
      let (u, e, h1) = bind_ok _ _ _ h in
      let (options, accepted, h2) = bind_ok _ _ _ h1 in
      let valid = validate_job-IsValid job u e in
      let made = ok_injective _ _ h2 in
      (
        valid,
        ap (λ (s : MeshJobSpec). s.source_key) (sym made) ∙ source_key-of job valid,
        ap (λ (s : MeshJobSpec). s.output_key) (sym made) ∙ output_key-of job valid,
        accepted ∙ ap (λ (s : MeshJobSpec). ok s.options) made,
      )
