-- ===== src/Handler/Outcome/Failed.antt =====
-- internal/handler/handler.go: what stands behind a handler that returns a terminal error.
use geul_asset_optimizer.Base.{
  String, ℕ, true, Option, none, some, List, ◌∷◌, ◌≡◌, refl, ◌⊎◌, inl, inr, arith,
}
use geul_asset_optimizer.Base.Int.{ℤ}
use geul_asset_optimizer.Errors.{
  Error, wrap, result_publish_error, Result, ok, err, error_of, is_terminal_result, IsPlain,
  IsPlain-as_none, pipeline_failure_reason,
}
use geul_asset_optimizer.Contracts.{FailureReason, rejected, MeshOptimizationJob, FailEvent}
use geul_asset_optimizer.Handler.World.{Event, fail_published, Trace, Env, ◌>>=◌, raise}
use geul_asset_optimizer.Handler.Validation.{MeshJobSpec, new_mesh_job_spec}
use geul_asset_optimizer.Handler.Events.{
  PipelineResult, new_fail_event, publish_progress, publish_fail, settle_fail,
}
use geul_asset_optimizer.Handler.Pipeline.{run_pipeline}
use geul_asset_optimizer.Handler.Pipeline.Evidence.{Earlier, newest_one, one_later}
use geul_asset_optimizer.Handler.Outcome.{PlainResult, PlainOption, PlainEnv}
use geul_asset_optimizer.Handler.Outcome.Tame.{run_pipeline-Tame}
use geul_asset_optimizer.Handler.Outcome.Rejections.{plain-new_mesh_job_spec, plain-validate_job_id}
use geul_asset_optimizer.Handler.Processor.{
  record_success, settle_complete, publish_complete, finish_job, run_job, process_job, end_span,
  trace_span, handle_valid, handle_parsed, handle_mesh_job,
}

IsPlain-no_terminal : (e : Error) → IsPlain e → is_terminal_result (some e) ≡ true → ⊥
unfolding is_terminal_result
IsPlain-no_terminal e plain h = ground (arith, IsPlain-as_none e plain)

unannounced_no_terminal :
    (before after : String) (e : Error)
    → IsPlain e
    → is_terminal_result (some (result_publish_error (wrap before e after))) ≡ true
    → ⊥
unfolding is_terminal_result
unannounced_no_terminal before after e plain h = ground (arith, IsPlain-as_none e plain)

module _ (env : Env) (max_input_bytes : ℤ) where
  -- The job was refused as it stands, or the pipeline of the accepted job failed.
  abbrev pub Caused : MeshOptimizationJob → FailureReason → Error → Trace → Type 0
  Caused job reason cause at =
      ((reason ≡ rejected) × (new_mesh_job_spec env.libraries job ≡ err cause))
      ⊎ ((spec : MeshJobSpec) × (before : Trace) × (new_mesh_job_spec env.libraries job ≡ ok spec)
          × (reason ≡ pipeline_failure_reason cause)
          × (run_pipeline env job spec max_input_bytes before ≡ (err cause, at)))

  -- The event of a failure, with its reason and its cause, was published, before the trace ended with
  -- `tr`, and was accepted.
  pub record Failed (job : MeshOptimizationJob) (tr : Trace) : Type 0 where
    pub reason : FailureReason
    pub cause : Error
    pub started : Trace
    pub at : Trace
    pub caused : Caused job reason cause at
    pub replied : env.publish_fail at (new_fail_event env job started reason cause at) ≡ none
    pub announced :
        Earlier (fail_published (new_fail_event env job started reason cause at) none) at tr

  Failed-later :
      (job : MeshOptimizationJob) (newest : Event) (tr : Trace)
      → Failed job tr
      → Failed job (newest ∷ tr)
  Failed-later job newest tr f = record {
    reason = f.reason;
    cause = f.cause;
    started = f.started;
    at = f.at;
    caused = f.caused;
    replied = f.replied;
    announced = one_later newest tr f.announced;
  }

  module _ (job : MeshOptimizationJob) (started : Trace) where
    settled :
        (reason : FailureReason) (cause : Error) (event : FailEvent) (e : Option Error) (at : Trace)
        → IsPlain cause
        → is_terminal_result
            (error_of (settle_fail env job started reason cause e (fail_published event e ∷ at)).0)
          ≡ true
        → (e ≡ none)
          × Earlier
              (fail_published event none)
              at
              (settle_fail env job started reason cause e (fail_published event e ∷ at)).1
    unfolding settle_fail raise
    settled reason cause event none at plain h = (refl, one_later _ _ newest_one)
    settled reason cause event (some e) at plain h =
        absurd (unannounced_no_terminal _ _ cause plain h)

    published :
        (reason : FailureReason) (cause : Error) (at : Trace)
        → Caused job reason cause at
        → IsPlain cause
        → is_terminal_result (error_of (publish_fail env job started reason cause at).0) ≡ true
        → Failed job (publish_fail env job started reason cause at).1
    unfolding publish_fail
    published reason cause at caused plain h =
        let (replied, announced) = settled reason cause _ _ at plain h in
        record {
          reason = reason;
          cause = cause;
          started = started;
          at = at;
          caused = caused;
          replied = replied;
          announced = announced;
        }

    completed :
        (e : Option Error) (tr : Trace)
        → PlainOption e
        → is_terminal_result (error_of (settle_complete env max_input_bytes job started e tr).0)
          ≡ true
        → ⊥
    unfolding settle_complete record_success publish_progress ◌>>=◌ raise is_terminal_result
    completed none tr plain h = cc
    completed (some e) tr plain h = ground (arith, IsPlain-as_none e plain)

    finished :
        (spec : MeshJobSpec) (before : Trace) (r : Result PipelineResult) (at : Trace)
        → PlainEnv env
        → new_mesh_job_spec env.libraries job ≡ ok spec
        → run_pipeline env job spec max_input_bytes before ≡ (r, at)
        → PlainResult r
        → is_terminal_result (error_of (finish_job env max_input_bytes job spec started r at).0)
          ≡ true
        → Failed job (finish_job env max_input_bytes job spec started r at).1
    unfolding finish_job publish_complete
    finished spec before (ok result) at plain accepted ran p h =
        absurd (completed _ _ (plain.publish_complete at _) h)
    finished spec before (err e) at plain accepted ran p h =
        published (pipeline_failure_reason e) e at (inr (spec, before, accepted, refl, ran)) p h

    ran_job :
        (read : Result MeshJobSpec) (tr : Trace)
        → PlainEnv env
        → new_mesh_job_spec env.libraries job ≡ read
        → PlainResult read
        → is_terminal_result (error_of (run_job env max_input_bytes job started read tr).0) ≡ true
        → Failed job (run_job env max_input_bytes job started read tr).1
    unfolding run_job
    ran_job (err e) tr plain valid p h = published rejected e tr (inl (refl, valid)) p h
    ran_job (ok spec) tr plain valid p h =
        finished spec tr _ _ plain valid refl
          ((run_pipeline-Tame env plain job spec max_input_bytes).at tr) h

  span_Failed :
      (job : MeshOptimizationJob) (r : Result (Unit {0})) (tr : Trace)
      → (is_terminal_result (error_of r) ≡ true → Failed job tr)
      → is_terminal_result (error_of (end_span env max_input_bytes r tr).0) ≡ true
      → Failed job (end_span env max_input_bytes r tr).1
  span_Failed job (ok u) tr f h = Failed-later job _ tr (f h)
  span_Failed job (err e) tr f h = Failed-later job _ _ (Failed-later job _ tr (f h))

  module _ (plain : PlainEnv env) where
    valid_Failed :
        (job : MeshOptimizationJob) (valid : Result (Unit {0})) (tr : Trace)
        → PlainResult valid
        → is_terminal_result (error_of (handle_valid env max_input_bytes job valid tr).0) ≡ true
        → Failed job (handle_valid env max_input_bytes job valid tr).1
    unfolding handle_valid trace_span process_job raise
    valid_Failed job (ok u) tr p h =
        span_Failed job _ _
          (λ done. ran_job job _ _ _ plain refl (plain-new_mesh_job_spec env plain job) done) h
    valid_Failed job (err e) tr p h = absurd (IsPlain-no_terminal e p h)

    parsed_Failed :
        (parsed : Result MeshOptimizationJob) (tr : Trace)
        → PlainResult parsed
        → is_terminal_result (error_of (handle_parsed env max_input_bytes parsed tr).0) ≡ true
        → (job : MeshOptimizationJob) × (parsed ≡ ok job)
          × Failed job (handle_parsed env max_input_bytes parsed tr).1
    unfolding handle_parsed raise
    parsed_Failed (ok job) tr p h =
        (job, refl, valid_Failed job _ tr (plain-validate_job_id env plain job) h)
    parsed_Failed (err e) tr p h = absurd (IsPlain-no_terminal _ p h)

    pub handle_mesh_job-Failed :
        (body : List ℕ) (tr : Trace)
        → is_terminal_result (error_of (handle_mesh_job env max_input_bytes body tr).0) ≡ true
        → (job : MeshOptimizationJob) × (env.unmarshal_job body ≡ ok job)
          × Failed job (handle_mesh_job env max_input_bytes body tr).1
    unfolding handle_mesh_job
    handle_mesh_job-Failed body tr h =
        parsed_Failed (env.unmarshal_job body) tr (plain.unmarshal_job body) h
