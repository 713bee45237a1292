-- ===== src/Handler/Outcome/Acknowledged.antt =====
-- What an acknowledgement of the handler means.
use geul_asset_optimizer.Base.{
  Bool, ℕ, true, false, Option, none, some, List, [], ◌≡◌, refl, subst, arith, is_none, ◌||◌,
}
use geul_asset_optimizer.Base.Int.{ℤ}
use geul_asset_optimizer.Errors.{
  error_of, Error, wrap, Result, ok, err, IsPlain, IsPlain-as_none, is_terminal_result,
}
use geul_asset_optimizer.Contracts.{MeshOptimizationJob}
use geul_asset_optimizer.Handler.World.{Trace, Env, raise}
use geul_asset_optimizer.Handler.Validation.{validate_job_id}
use geul_asset_optimizer.Handler.Processor.{
  trace_span, handle_mesh_job, handle_parsed, handle_valid,
}
use geul_asset_optimizer.Handler.Outcome.{
  PlainResult, PlainEnv, answer, Announced, Announced-answer, Classified,
}
use geul_asset_optimizer.Handler.Outcome.Settled.{Settled, trace_span_settles}
use geul_asset_optimizer.Handler.Outcome.Rejections.{plain-validate_job_id}

-- No error, or a terminal one.
abbrev pub acknowledged : Result (Unit {0}) → Bool
acknowledged r = is_none (error_of r) || is_terminal_result (error_of r)

plain_not_acknowledged : (e : Error) → IsPlain e → acknowledged (err e) ≡ false
unfolding is_terminal_result
plain_not_acknowledged e h = ground (arith, IsPlain-as_none e h)

Classified-announced :
    (outcome r : Option Error)
    → Classified outcome r
    → (is_none r || is_terminal_result r) ≡ true
    → outcome ≡ none
Classified-announced none r c h = refl
Classified-announced (some e) r c h = ground arith

Settled-Announced :
    (env : Env) (r : Result (Unit {0})) (tr : Trace)
    → Settled env (r, tr)
    → acknowledged r ≡ true
    → Announced env tr none
Settled-Announced env r tr (outcome, a, c) h =
    subst (Announced env tr) (Classified-announced outcome (error_of r) c h) a

module _ (env : Env) (plain : PlainEnv env) (max_input_bytes : ℤ) where
  valid-Announced :
      (job : MeshOptimizationJob) (v : Result (Unit {0}))
      → PlainResult v
      → acknowledged (handle_valid env max_input_bytes job v []).0 ≡ true
      → Announced env (handle_valid env max_input_bytes job v []).1 none
  unfolding handle_valid raise
  valid-Announced job (err e) p h = cc (plain_not_acknowledged e p)
  valid-Announced job (ok u) p h =
      Settled-Announced env (trace_span env max_input_bytes job []).0
        (trace_span env max_input_bytes job []).1
        (trace_span_settles env plain max_input_bytes job []) h

  parsed-Announced :
      (parsed : Result MeshOptimizationJob)
      → PlainResult parsed
      → acknowledged (handle_parsed env max_input_bytes parsed []).0 ≡ true
      → Announced env (handle_parsed env max_input_bytes parsed []).1 none
  unfolding handle_parsed raise
  parsed-Announced (err e) p h =
      cc (plain_not_acknowledged (wrap "parse mesh optimization job: " e "") p)
  parsed-Announced (ok job) p h =
      valid-Announced job (validate_job_id env.libraries job) (plain-validate_job_id env plain job)
        h

  -- The last result was accepted, and it is the publisher that accepted it.
  pub acknowledged_replied :
      (body : List ℕ)
      → acknowledged (handle_mesh_job env max_input_bytes body []).0 ≡ true
      → Announced env (handle_mesh_job env max_input_bytes body []).1 none
  unfolding handle_mesh_job
  acknowledged_replied body h =
      parsed-Announced (env.unmarshal_job body) (plain.unmarshal_job body) h

  -- Whatever message the handler is given, when the errors of the services are plain: if it returns
  -- no error or a terminal one, then the last result that it announced was accepted by the result
  -- queue.
  pub acknowledged_announced :
      (body : List ℕ)
      → acknowledged (handle_mesh_job env max_input_bytes body []).0 ≡ true
      → answer (handle_mesh_job env max_input_bytes body []).1 ≡ some none
  acknowledged_announced body h =
      Announced-answer env (handle_mesh_job env max_input_bytes body []).1 none
        (acknowledged_replied body h)
