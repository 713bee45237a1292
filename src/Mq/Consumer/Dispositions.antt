-- ===== src/Mq/Consumer/Dispositions.antt =====
-- The dispositions of a message: completed, retried or dead-lettered.
use geul_asset_optimizer.Base.{
  String, ◌≡◌, refl, Bool, Option, List, [], ◌∷◌, arith, is_none, ◌&&◌, if◌then◌else◌, ◌||◌,
}
use geul_asset_optimizer.Base.Int.{ℤ, pos, leb_ℤ}
use geul_asset_optimizer.Errors.{Error, is_terminal_result, is_retryable}
use geul_asset_optimizer.Jobs.{QueueConfig}
use geul_asset_optimizer.Mq.World.{Message, completed, retried, dead_lettered, Trace, Env}
use geul_asset_optimizer.Mq.Telemetry.{
  emit_queue_delivery_succeeded, emit_queue_delivery_failed, emit_queue_delivery_requeued,
  emit_queue_retry_result, emit_queue_dlq_result,
}
use geul_asset_optimizer.Mq.Consumer.{
  fail_delivery, give_back, retry_delay, complete, retry, dead_letter, settle,
}

pub data Disposition : Type 0 where
  done : ℤ → Disposition
  again : ℤ → ℤ → Disposition
  dead : ℤ → Disposition

-- All dispositions that a trace shows, newest first, with the messages' transport ids.
abbrev pub dispositions : Trace → List Disposition
dispositions [] = []
dispositions (completed id e ∷ tr) = done id ∷ dispositions tr
dispositions (retried id delay e ∷ tr) = again id delay ∷ dispositions tr
dispositions (dead_lettered id e ∷ tr) = dead id ∷ dispositions tr
dispositions (_ ∷ tr) = dispositions tr

module _ (env : Env) (config : QueueConfig) (msg : Message) where
  pub dispositions-complete :
      (started : Trace) (text : String) (tr : Trace)
      → dispositions (complete env config msg started text tr)
        ≡ done msg.transport_id ∷ dispositions tr
  unfolding complete emit_queue_delivery_succeeded emit_queue_delivery_failed
  dispositions-complete started text tr = ground arith

  pub dispositions-retry :
      (delay : ℤ) (tr : Trace)
      → dispositions (retry env config msg delay tr)
        ≡ again msg.transport_id delay ∷ dispositions tr
  unfolding retry emit_queue_retry_result
  dispositions-retry delay tr = ground arith

  pub dispositions-dead_letter :
      (text : String) (tr : Trace)
      → dispositions (dead_letter env config msg text tr) ≡ dead msg.transport_id ∷ dispositions tr
  unfolding dead_letter emit_queue_dlq_result
  dispositions-dead_letter text tr = ground arith

  -- What a settled delivery comes to.
  abbrev pub verdict : Option Error → Bool → Disposition
  verdict e parent_done =
      if parent_done
      then again msg.transport_id (pos 0)
      else if is_none e || is_terminal_result e
      then done msg.transport_id
      else if is_retryable e && leb_ℤ msg.read_count config.retry_limit
      then again msg.transport_id (retry_delay msg.read_count)
      else dead msg.transport_id

  pub dispositions-fail_delivery :
      (started tr : Trace)
      → dispositions (fail_delivery env config msg started tr) ≡ dispositions tr
  unfolding fail_delivery emit_queue_delivery_failed
  dispositions-fail_delivery started tr = refl

  dispositions-give_back :
      (started tr : Trace)
      → dispositions (give_back env config msg started tr)
        ≡ again msg.transport_id (pos 0) ∷ dispositions tr
  unfolding give_back emit_queue_delivery_requeued emit_queue_retry_result
  dispositions-give_back started tr = ground arith

  -- Every delivery that reached its handler has one disposition.
  pub dispositions-settle :
      (started : Trace) (e : Option Error) (parent_done : Bool) (tr : Trace)
      → dispositions (settle env config msg started e parent_done tr)
        ≡ verdict e parent_done ∷ dispositions tr
  unfolding settle
  dispositions-settle started e parent_done tr =
      let failed = fail_delivery env config msg started tr in
      ground (
        arith,
        dispositions-complete started "PGMQ terminal completion failed" tr,
        dispositions-complete started "PGMQ delete failed" tr,
        dispositions-give_back started tr,
        dispositions-retry (retry_delay msg.read_count) failed,
        dispositions-dead_letter "PGMQ archive failed" failed,
        dispositions-fail_delivery started tr,
      )
