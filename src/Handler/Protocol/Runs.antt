-- ===== src/Handler/Protocol/Runs.antt =====
-- Whole runs of the processor keep the protocol.
use geul_asset_optimizer.Base.{
  String, true, false, none, some, Option, List, ℕ, ◌∷◌, ◌≡◌, eq_refl, arith,
}
use geul_asset_optimizer.Base.Int.{ℤ}
use geul_asset_optimizer.Base.Text.{trim_space}
use geul_asset_optimizer.Errors.{pipeline_failure_reason, Error, Result, ok, err}
use geul_asset_optimizer.Contracts.{internal, rejected, MeshOptimizationJob}
use geul_asset_optimizer.Handler.World.{
  work_dir_created, complete_published, emitted, job_started, span_started, raise, Trace, Env, M,
  ◌>>=◌,
}
use geul_asset_optimizer.Handler.Validation.{MeshJobSpec, new_mesh_job_spec, validate_job_id}
use geul_asset_optimizer.Handler.Events.{
  optimization_completed, new_complete_event, publish_fail, PipelineResult,
}
use geul_asset_optimizer.Handler.Pipeline.{
  or_failed, create_job_work_dir, clean_up, run_in_dir, run_pipeline,
}
use geul_asset_optimizer.Handler.Processor.{
  record_success, settle_complete, finish_job, run_job, process_job, trace_span, handle_valid,
  handle_parsed, handle_mesh_job,
}
use geul_asset_optimizer.Handler.Protocol.{idle, running, ready, answered, holding, phase}
use geul_asset_optimizer.Handler.Protocol.Moves.{Moves, Moves-bind, Moves-raise, Moves-same, chosen}
use geul_asset_optimizer.Handler.Protocol.Steps.{
  publish_progress_answered, publish_fail_answers, download_source-Held, optimize_source_stores,
}

module _ (env : Env) where
  clean_up_frees :
      {A : Type 0} (dir : String) (m : M A)
      → Moves (holding dir false) (holding dir true) (holding dir false) m
      → Moves (holding dir false) ready running (clean_up env dir m)
  unfolding clean_up phase
  clean_up_frees dir m km = record { at = λ tr h. ground (arith, km.at tr h, eq_refl dir) }

  run_in_dir_stores :
      (job : MeshOptimizationJob) (spec : MeshJobSpec) (max_input_bytes : ℤ) (dir : String)
      → Moves
          (holding dir false)
          (holding dir true)
          (holding dir false)
          (run_in_dir env job spec max_input_bytes dir)
  unfolding run_in_dir
  run_in_dir_stores job spec max_input_bytes dir =
      Moves-bind _ _ (download_source-Held env job spec dir max_input_bytes)
        (λ source. optimize_source_stores env job spec dir source)

  -- A directory that could not be made leaves nothing to clean up.
  entered_frees :
      (job : MeshOptimizationJob) (spec : MeshJobSpec) (max_input_bytes : ℤ)
      → (r : Result String) (tr : Trace) → phase tr ≡ some running
      → let m =
          or_failed internal "create work dir" (λ _. (r, work_dir_created spec.job_id r ∷ tr))
          >>= λ dir. clean_up env dir (run_in_dir env job spec max_input_bytes dir) in
        phase (m tr).1 ≡ some (chosen (m tr).0 ready running)
  unfolding ◌>>=◌ or_failed phase
  entered_frees job spec max_input_bytes (ok dir) tr h =
      (clean_up_frees dir _ (run_in_dir_stores job spec max_input_bytes dir)).at
        (work_dir_created spec.job_id (ok dir) ∷ tr) (rw h)
  entered_frees job spec max_input_bytes (err e) tr h = rw h

  pub run_pipeline_frees :
      (job : MeshOptimizationJob) (spec : MeshJobSpec) (max_input_bytes : ℤ)
      → Moves running ready running (run_pipeline env job spec max_input_bytes)
  unfolding run_pipeline create_job_work_dir ◌>>=◌ or_failed
  run_pipeline_frees job spec max_input_bytes = record {
    at = λ tr h.
        entered_frees job spec max_input_bytes (env.create_job_work_dir tr spec.job_id) tr h;
  }

module _ (env : Env) (max_input_bytes : ℤ) (job : MeshOptimizationJob) where
  record_success_answered :
      (started : Trace)
      → Moves answered answered answered (record_success env max_input_bytes job started)
  unfolding record_success phase
  record_success_answered started = record { at = λ tr h. ground arith }

  settle_complete_answered :
      (started : Trace) (e : Option Error)
      → Moves answered answered answered (settle_complete env max_input_bytes job started e)
  unfolding settle_complete
  settle_complete_answered started (some e) = Moves-raise _
  settle_complete_answered started none =
      Moves-bind _ _ (publish_progress_answered env job optimization_completed)
        (λ _. record_success_answered started)

  finish_job_answers :
      (spec : MeshJobSpec) (started : Trace) (r : Result PipelineResult) (tr : Trace)
      → phase tr ≡ some (chosen r ready running)
      → phase (finish_job env max_input_bytes job spec started r tr).1 ≡ some answered
  unfolding finish_job phase
  finish_job_answers spec started (ok result) tr h =
      let complete = new_complete_event env job spec result started tr in
      let e = env.publish_complete tr complete in
      Moves-same (settle_complete env max_input_bytes job started e)
        (complete_published complete e ∷ tr) (settle_complete_answered started e) (rw h)
  finish_job_answers spec started (err e) tr h =
      Moves-same (publish_fail env job started (pipeline_failure_reason e) e) tr
        (publish_fail_answers env job started _ e) h

  run_job_answers :
      (started : Trace) (r : Result MeshJobSpec) (tr : Trace)
      → phase tr ≡ some running
      → phase (run_job env max_input_bytes job started r tr).1 ≡ some answered
  unfolding run_job
  run_job_answers started (ok spec) tr h =
      finish_job_answers spec started (run_pipeline env job spec max_input_bytes tr).0
        (run_pipeline env job spec max_input_bytes tr).1
        ((run_pipeline_frees env job spec max_input_bytes).at tr h)
  run_job_answers started (err e) tr h =
      Moves-same (publish_fail env job started rejected e) tr
        (publish_fail_answers env job started rejected e) h

  -- A job is answered from any trace in which its span has just begun.
  pub phase-process_job :
      (tr : Trace)
      → phase tr ≡ some running
      → phase (process_job env max_input_bytes job tr).1 ≡ some answered
  unfolding process_job phase
  phase-process_job tr h =
      run_job_answers tr (new_mesh_job_spec env.libraries job)
        (emitted (job_started (trim_space job.job_id)) ∷ tr) (rw h)

  phase-trace_span :
      (tr : Trace)
      → phase tr ≡ some idle
      → phase (trace_span env max_input_bytes job tr).1 ≡ some idle
  unfolding trace_span phase
  phase-trace_span tr h = ground (arith, phase-process_job (span_started job.job_id ∷ tr))

  phase-handle_valid :
      (r : Result (Unit {0})) (tr : Trace)
      → phase tr ≡ some idle
      → phase (handle_valid env max_input_bytes job r tr).1 ≡ some idle
  unfolding handle_valid raise
  phase-handle_valid (ok u) tr h = phase-trace_span tr h
  phase-handle_valid (err e) tr h = h

module _ (env : Env) (max_input_bytes : ℤ) where
  phase-handle_parsed :
      (r : Result MeshOptimizationJob) (tr : Trace)
      → phase tr ≡ some idle
      → phase (handle_parsed env max_input_bytes r tr).1 ≡ some idle
  unfolding handle_parsed raise
  phase-handle_parsed (ok job) tr h =
      phase-handle_valid env max_input_bytes job (validate_job_id env.libraries job) tr h
  phase-handle_parsed (err e) tr h = h

  -- Whatever the message and whatever the services answer, a handler that starts from a trace in
  -- the idle phase of the protocol makes only calls that the protocol allows, and leaves it idle.
  pub phase-handle_mesh_job :
      (body : List ℕ) (tr : Trace)
      → phase tr ≡ some idle
      → phase (handle_mesh_job env max_input_bytes body tr).1 ≡ some idle
  unfolding handle_mesh_job
  phase-handle_mesh_job body tr h = phase-handle_parsed (env.unmarshal_job body) tr h
