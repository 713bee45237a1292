-- ===== src/Handler/Outcome.antt =====
-- What the processor of internal/handler returns, and what it announced: the vocabulary of the
-- statements. The errors of the services are `Plain`: none of them is one of the handler's own
-- classified errors, which only handler.go constructs.
pub mod Tame
pub mod Rejections
pub mod Settled
pub mod Failed
pub mod Succeeded
pub mod Acknowledged
use geul_asset_optimizer.Base.{
  String, Bool, true, false, Option, none, some, List, ℕ, [], ◌∷◌, ◌≡◌, ap, ◌≢◌, is_none, ◌||◌,
}
use geul_asset_optimizer.Base.Int.{ℤ}
use geul_asset_optimizer.Errors.{Error, Result, ok, err, IsPlain, is_terminal_result, is_retryable}
use geul_asset_optimizer.Contracts.{MeshOptimizationJob, ProgressEvent, CompleteEvent, FailEvent}
use geul_asset_optimizer.Optimizer.Options.{Options}
use geul_asset_optimizer.Handler.World.{
  Event, span_started, span_failed, span_ended, emitted, warned, progress_published,
  complete_published, fail_published, work_dir_created, work_dir_cleaned, object_sized, downloaded,
  file_statted, inspected, optimized, file_opened, file_hashed, file_closed, uploaded, Trace, Env,
}

abbrev pub PlainResult : {A : Type 0} → Result A → Type 0
PlainResult (ok a) = Unit
PlainResult (err e) = IsPlain e

abbrev pub PlainOption : Option Error → Type 0
PlainOption none = Unit
PlainOption (some e) = IsPlain e

pub record PlainEnv (env : Env) : Type 0 where
  pub unmarshal_job : (body : List ℕ) → PlainResult (env.unmarshal_job body)
  pub media_object_key : (id ext : String) → PlainResult (env.media_object_key id ext)
  pub create_job_work_dir : (tr : Trace) (id : String) → PlainResult (env.create_job_work_dir tr id)
  pub get_object_size : (tr : Trace) (key : String) → PlainResult (env.get_object_size tr key)
  pub download : (tr : Trace) (key path : String) → PlainOption (env.download tr key path)
  pub upload : (tr : Trace) (key path mime : String) → PlainOption (env.upload tr key path mime)
  pub inspect : (tr : Trace) (path : String) → PlainResult (env.inspect tr path)
  pub optimize :
      (tr : Trace) (input output : String) (options : Options)
      → PlainOption (env.optimize tr input output options)
  pub publish_complete : (tr : Trace) (e : CompleteEvent) → PlainOption (env.publish_complete tr e)
  pub publish_fail : (tr : Trace) (e : FailEvent) → PlainOption (env.publish_fail tr e)
  pub stat_file : (tr : Trace) (path : String) → PlainResult (env.stat_file tr path)
  pub open_file : (tr : Trace) (path : String) → PlainOption (env.open_file tr path)
  pub copy_stream : (tr : Trace) (path : String) → PlainResult (env.copy_stream tr path)

-- The outcome of the newest announcement of a result; the outer `none` says that there is none.
abbrev pub answer : Trace → Option (Option Error)
answer [] = none
answer (complete_published event outcome ∷ tr) = some outcome
answer (fail_published event outcome ∷ tr) = some outcome
answer (_ ∷ tr) = answer tr

-- The newest announcement had this outcome, and it is what the publisher answered.
abbrev pub Announced : Env → Trace → Option Error → Type 0
Announced env [] outcome = ⊥
Announced env (complete_published event answered ∷ tr) outcome =
    (answered ≡ outcome) × (env.publish_complete tr event ≡ outcome)
Announced env (fail_published event answered ∷ tr) outcome =
    (answered ≡ outcome) × (env.publish_fail tr event ≡ outcome)
Announced env (_ ∷ tr) outcome = Announced env tr outcome

pub Announced-answer :
    (env : Env) (tr : Trace) (outcome : Option Error)
    → Announced env tr outcome
    → answer tr ≡ some outcome
Announced-answer env [] outcome h = elim h [ ]
Announced-answer env (complete_published event answered ∷ tr) outcome (h, replied) = ap some h
Announced-answer env (fail_published event answered ∷ tr) outcome (h, replied) = ap some h
Announced-answer env (span_started a ∷ tr) outcome h = Announced-answer env tr outcome h
Announced-answer env (span_failed a ∷ tr) outcome h = Announced-answer env tr outcome h
Announced-answer env (span_ended ∷ tr) outcome h = Announced-answer env tr outcome h
Announced-answer env (emitted a ∷ tr) outcome h = Announced-answer env tr outcome h
Announced-answer env (warned a ∷ tr) outcome h = Announced-answer env tr outcome h
Announced-answer env (progress_published a b ∷ tr) outcome h = Announced-answer env tr outcome h
Announced-answer env (work_dir_created a b ∷ tr) outcome h = Announced-answer env tr outcome h
Announced-answer env (work_dir_cleaned a b ∷ tr) outcome h = Announced-answer env tr outcome h
Announced-answer env (object_sized a b ∷ tr) outcome h = Announced-answer env tr outcome h
Announced-answer env (downloaded a b c ∷ tr) outcome h = Announced-answer env tr outcome h
Announced-answer env (file_statted a b ∷ tr) outcome h = Announced-answer env tr outcome h
Announced-answer env (inspected a b ∷ tr) outcome h = Announced-answer env tr outcome h
Announced-answer env (optimized a b c d ∷ tr) outcome h = Announced-answer env tr outcome h
Announced-answer env (file_opened a b ∷ tr) outcome h = Announced-answer env tr outcome h
Announced-answer env (file_hashed a b ∷ tr) outcome h = Announced-answer env tr outcome h
Announced-answer env (file_closed a ∷ tr) outcome h = Announced-answer env tr outcome h
Announced-answer env (uploaded a b c d ∷ tr) outcome h = Announced-answer env tr outcome h

-- A result that is out is acknowledged and never retried; one that is not is retried and never
-- acknowledged.
abbrev pub Classified : Option Error → Option Error → Type 0
Classified none r = ((is_none r || is_terminal_result r) ≡ true) × (is_retryable r ≡ false)
Classified (some e) r =
    (is_none r ≡ false) × (is_terminal_result r ≡ false) × (is_retryable r ≡ true)
