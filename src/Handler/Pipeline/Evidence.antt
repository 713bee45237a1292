-- ===== src/Handler/Pipeline/Evidence.antt =====
-- What a pipeline that succeeds has on record: Hoare triples whose conditions are the calls that the
-- trace must hold, in their order.
pub mod Calls
use geul_asset_optimizer.Base.{
  subst, if◌then◌else◌, String, Bool, true, false, Option, none, some, List, ℕ, [], ◌∷◌, ◌≡◌, refl,
  ap, sym, ◌⊎◌, inl, inr,
}
use geul_asset_optimizer.Errors.{Error, Result, ok, err}
use geul_asset_optimizer.Contracts.{FailureReason, MeshOptimizationJob}
use geul_asset_optimizer.Optimizer.Options.{Options}
use geul_asset_optimizer.Handler.World.{
  continue, Event, work_dir_created, object_sized, downloaded, file_statted, inspected, optimized,
  file_opened, file_hashed, uploaded, Trace, Env, M, ◌>>=◌, pure, raise, as_result,
}
use geul_asset_optimizer.Handler.Events.{MeshProgress, publish_progress, warn_progress}
use geul_asset_optimizer.Handler.Pipeline.{
  digest, or_failed, create_job_work_dir, get_object_size, download, stat_file, inspect, optimize,
  upload, file_sha256, hash_file,
}

-- The reply that an entry has is that of the service, asked with the trace before it.
abbrev pub Answered : Env → Event → Trace → Type 0
Answered env (work_dir_created job_id r) tr = env.create_job_work_dir tr job_id ≡ r
Answered env (object_sized key r) tr = env.get_object_size tr key ≡ r
Answered env (downloaded key path e) tr = env.download tr key path ≡ e
Answered env (file_statted path r) tr = env.stat_file tr path ≡ r
Answered env (inspected path r) tr = env.inspect tr path ≡ r
Answered env (optimized input output options e) tr = env.optimize tr input output options ≡ e
Answered env (file_hashed path r) tr = env.copy_stream tr path ≡ r
Answered env (uploaded key path mime e) tr = env.upload tr key path mime ≡ e
Answered env other tr = Unit

-- The entries stand in the trace in this order, newest first, each with the reply of its service.
abbrev pub Each : Env → List Event → Trace → Type 0
Each env [] tr = Unit
Each env (event ∷ events) [] = ⊥
Each env (event ∷ events) (newest ∷ tr) =
    ((event ≡ newest) × (Answered env event tr × Each env events tr)) ⊎ Each env (event ∷ events) tr

pub record AllRecorded (env : Env) (events : List Event) (tr : Trace) : Type 0 where
  pub each : Each env events tr

module _ (env : Env) where
  Each-later :
      (events : List Event) (newest : Event) (tr : Trace)
      → Each env events tr
      → Each env events (newest ∷ tr)
  Each-later [] newest tr h = tt
  Each-later (event ∷ events) newest tr h = inr h

module _ {env : Env} where
  pub AllRecorded-later :
      (events : List Event) (newest : Event) (tr : Trace)
      → AllRecorded env events tr
      → AllRecorded env events (newest ∷ tr)
  AllRecorded-later events newest tr h = record { each = Each-later env events newest tr h.each }

  pub AllRecorded-newest :
      (events : List Event) (event newest : Event) (tr : Trace)
      → event ≡ newest
      → Answered env event tr
      → AllRecorded env events tr
      → AllRecorded env (event ∷ events) (newest ∷ tr)
  AllRecorded-newest events event newest tr same answered h = record {
    each = inl (same, (answered, h.each));
  }

-- The event is in the trace, and `older` is what was before it.
pub data Earlier (event : Event) (older : Trace) : Trace → Type 0 where
  newest_one : Earlier event older (event ∷ older)
  one_later :
      (newest : Event) (tr : Trace) → Earlier event older tr → Earlier event older (newest ∷ tr)

pub Earlier-trans :
    (a b : Event) (oldest older tr : Trace)
    → Earlier a older tr
    → Earlier b oldest older
    → Earlier b oldest tr
Earlier-trans a b oldest older tr newest_one h = one_later a older h
Earlier-trans a b oldest older tr (one_later n t e) h =
    one_later n t (Earlier-trans a b oldest older t e h)

Each-moment :
    (env : Env) (event : Event) (events : List Event) (tr : Trace)
    → Each env (event ∷ events) tr
    → (older : Trace) × Earlier event older tr
      × Answered env event older
      × AllRecorded env events older
Each-moment env event events [] h = absurd h
Each-moment env event events (newest ∷ tr) (inl (same, (answered, h))) = (
  tr,
  subst (λ (x : Event). Earlier event tr (x ∷ tr)) same newest_one,
  answered,
  record { each = h },
)
Each-moment env event events (newest ∷ tr) (inr h) =
    let (older, earlier, answered, rest) = Each-moment env event events tr h in
    (older, one_later newest tr earlier, answered, rest)

-- When the newest of the entries was written, and that the others were before it.
pub moment :
    {env : Env} {event : Event} {events : List Event} {tr : Trace}
    → AllRecorded env (event ∷ events) tr
    → (older : Trace) × Earlier event older tr
      × Answered env event older
      × AllRecorded env events older
moment {env} {event} {events} {tr} h = Each-moment env event events tr h.each

-- If the condition holds before and the call succeeds, the other holds of its value and after it.
pub record Ensures {A : Type 0} (before : Trace → Type 0) (m : M A) (post : A → Trace → Type 0)
    : Type 0 where
  pub ensured : (tr : Trace) (a : A) → before tr → (m tr).0 ≡ ok a → post a (m tr).1

module _ {A B : Type 0} {mid : A → Trace → Type 0} {post : B → Trace → Type 0} where
  continued :
      (r : Result A) (tr : Trace) (f : A → M B) (b : B)
      → ((a : A) → r ≡ ok a → mid a tr)
      → ((a : A) → Ensures (mid a) (f a) post)
      → (continue r f tr).0 ≡ ok b
      → post b (continue r f tr).1
  continued (ok a) tr f b h k e = (k a).ensured tr b (h a refl) e
  continued (err x) tr f b h k e = cc

  pub Ensures-bind :
      {before : Trace → Type 0} (m : M A) (f : A → M B)
      → Ensures before m mid
      → ((a : A) → Ensures (mid a) (f a) post)
      → Ensures before (m >>= f) post
  unfolding ◌>>=◌
  Ensures-bind m f hm hf = record {
    ensured = λ tr b pre e. continued (m tr).0 (m tr).1 f b (λ a h. hm.ensured tr a pre h) hf e;
  }

module _ {A : Type 0} {before : Trace → Type 0} {post : A → Trace → Type 0} where
  pub Ensures-pure : (a : A) → ((tr : Trace) → before tr → post a tr) → Ensures before (pure a) post
  unfolding pure
  Ensures-pure a h = record {
    ensured = λ tr b pre e. subst (λ (c : A). post c tr) (cc e) (h tr pre);
  }

  pub Ensures-weaker :
      {weaker : A → Trace → Type 0} (m : M A)
      → ((a : A) (tr : Trace) → post a tr → weaker a tr)
      → Ensures before m post
      → Ensures before m weaker
  Ensures-weaker m f h = record { ensured = λ tr a pre e. f a (m tr).1 (h.ensured tr a pre e) }

  -- What follows a guard holds the guard's negation.
  pub Ensures-unless :
      (guard : Bool) (x : Error) (k : M A)
      → (guard ≡ false → Ensures before k post)
      → Ensures before (if guard then raise x else k) post
  unfolding raise
  Ensures-unless true x k h = record { ensured = λ tr a pre e. cc e }
  Ensures-unless false x k h = h refl

module _ {A : Type 0} (reason : FailureReason) (operation : String) where
  classified :
      (post : A → Trace → Type 0) (r : Result A) (tr : Trace) (a : A)
      → (r ≡ ok a → post a tr)
      → (or_failed reason operation (λ u. (r, u)) tr).0 ≡ ok a
      → post a (or_failed reason operation (λ u. (r, u)) tr).1
  unfolding or_failed
  classified post (ok b) tr a h e = h e
  classified post (err x) tr a h e = cc

  pub or_failed-Ensures :
      {before : Trace → Type 0} {post : A → Trace → Type 0} (m : M A)
      → Ensures before m post
      → Ensures before (or_failed reason operation m) post
  unfolding or_failed
  or_failed-Ensures {post = post} m h = record {
    ensured = λ tr a pre e. classified post (m tr).0 (m tr).1 a (h.ensured tr a pre) e;
  }
