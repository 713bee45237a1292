-- ===== src/Mq/Consumer/Reads.antt =====
-- The answers of the queue in the trace, newest first; what a worker does with a message reads nothing.
use geul_asset_optimizer.Base.{String, ℕ, ◌≡◌, refl, Bool, Option, List, [], ◌∷◌, arith}
use geul_asset_optimizer.Errors.{Error, Result, ok, err}
use geul_asset_optimizer.Jobs.{QueueConfig}
use geul_asset_optimizer.Mq.World.{Message, message_read, Trace, Env}
use geul_asset_optimizer.Mq.Telemetry.{
  emit_queue_delivery_succeeded, emit_queue_delivery_failed, emit_queue_delivery_requeued,
  emit_queue_retry_result, emit_queue_dlq_result,
}
use geul_asset_optimizer.Mq.Consumer.{
  ℤ, complete, retry, dead_letter, fail_delivery, give_back, settle, deliver, process, retry_delay,
}

-- What the queue answered to the reads, newest first.
abbrev pub read_answers : Trace → List (Result (List Message))
read_answers [] = []
read_answers (message_read r ∷ tr) = r ∷ read_answers tr
read_answers (_ ∷ tr) = read_answers tr

module _ (env : Env) (config : QueueConfig) (msg : Message) where
  read_answers-complete :
      (started : Trace) (text : String) (tr : Trace)
      → read_answers (complete env config msg started text tr) ≡ read_answers tr
  unfolding complete emit_queue_delivery_succeeded emit_queue_delivery_failed
  read_answers-complete started text tr = ground arith

  read_answers-retry :
      (delay : ℤ) (tr : Trace) → read_answers (retry env config msg delay tr) ≡ read_answers tr
  unfolding retry emit_queue_retry_result
  read_answers-retry delay tr = ground arith

  read_answers-dead_letter :
      (text : String) (tr : Trace)
      → read_answers (dead_letter env config msg text tr) ≡ read_answers tr
  unfolding dead_letter emit_queue_dlq_result
  read_answers-dead_letter text tr = ground arith

  read_answers-fail_delivery :
      (started tr : Trace)
      → read_answers (fail_delivery env config msg started tr) ≡ read_answers tr
  unfolding fail_delivery emit_queue_delivery_failed
  read_answers-fail_delivery started tr = refl

  read_answers-give_back :
      (started tr : Trace) → read_answers (give_back env config msg started tr) ≡ read_answers tr
  unfolding give_back emit_queue_delivery_requeued emit_queue_retry_result
  read_answers-give_back started tr = ground arith

  read_answers-settle :
      (started : Trace) (e : Option Error) (parent_done : Bool) (tr : Trace)
      → read_answers (settle env config msg started e parent_done tr) ≡ read_answers tr
  unfolding settle
  read_answers-settle started e parent_done tr =
      let failed = fail_delivery env config msg started tr in
      ground (
        arith,
        read_answers-complete started "PGMQ terminal completion failed" tr,
        read_answers-complete started "PGMQ delete failed" tr,
        read_answers-give_back started tr,
        read_answers-retry (retry_delay msg.read_count) failed,
        read_answers-dead_letter "PGMQ archive failed" failed,
        read_answers-fail_delivery started tr,
      )

  read_answers-deliver :
      (tr : Trace) (payload : Result (List ℕ))
      → read_answers (deliver env config msg tr payload) ≡ read_answers tr
  unfolding deliver
  read_answers-deliver tr (err e) = ground (
    arith,
    read_answers-dead_letter "" (fail_delivery env config msg tr tr),
    read_answers-fail_delivery tr tr,
  )
  read_answers-deliver tr (ok body) = read_answers-settle tr _ _ _

  pub read_answers-process :
      (tr : Trace) → read_answers (process env config msg tr) ≡ read_answers tr
  unfolding process
  read_answers-process tr =
      let failed = fail_delivery env config msg tr tr in
      ground (
        arith,
        read_answers-deliver tr (env.payload msg.envelope),
        read_answers-dead_letter "PGMQ contract-invalid archive failed" failed,
        read_answers-fail_delivery tr tr,
      )
