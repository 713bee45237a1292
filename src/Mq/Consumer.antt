-- ===== src/Mq/Consumer.antt =====
-- internal/mq/consumer.go: the consumer. A message is processed on a trace of calls; the worker's
-- loop runs on fuel, one unit for a round.
pub mod Dispositions
pub mod Policy
pub mod Retries
pub mod Backoff
pub mod Reads
pub mod Loop
pub mod Accounts
pub mod Closing
use geul_asset_optimizer.Base.{
  ℕ, zero, suc, ◌*◌, ◌^◌, String, Bool, true, false, not, ◌&&◌, ◌||◌, Option, none, some, List, [],
  ◌∷◌, str_eq, is_none, ltb, if◌then◌else◌,
}
use geul_asset_optimizer.Base.Int.{ℤ, pos, negsuc, sub_ℕ, ltb_ℤ, leb_ℤ, wrap64}
use geul_asset_optimizer.Errors.{Error, message, Result, ok, err, is_terminal_result, is_retryable}
use geul_asset_optimizer.Jobs.{QueueConfig, second}
use geul_asset_optimizer.Mq.World.{
  Message, handler_failed, completion_failed, message_read, slept, logged, handled, completed,
  retried, dead_lettered, Trace, Env,
}
use geul_asset_optimizer.Mq.Telemetry.{
  retries_before, emit_queue_delivery_succeeded, emit_queue_delivery_failed,
  emit_queue_delivery_requeued, emit_queue_retry_result, emit_queue_dlq_result,
}

-- `handler == nil` is the argument; the connection is absent or closed, or open.
unfoldable pub new_consumer : Option Bool → QueueConfig → Bool → Result QueueConfig
new_consumer none config has_handler = err (message "open PostgreSQL connection is required")
new_consumer (some closed) config has_handler =
    if closed
    then err (message "open PostgreSQL connection is required")
    else if not has_handler
        || str_eq config.name ""
        || str_eq config.message_type ""
        || leb_ℤ config.workers (pos 0)
        || leb_ℤ config.timeout (pos 0)
        || ltb_ℤ config.retry_limit (pos 0)
    then err (message "valid consumer configuration and handler are required")
    else ok config

-- `1 << n` of an int.
unfoldable pub shift_one : ℕ → ℤ
shift_one n = if ltb n 64 then wrap64 (pos (2 ^ n)) else pos 0

-- The product with a constant, in 64 bits.
unfoldable pub times : ℕ → ℤ → ℤ
times k (pos n) = wrap64 (pos (k * n))
times k (negsuc n) = wrap64 (sub_ℕ 0 (k * suc n))

-- `min(60, n)`
unfoldable pub cap : ℤ → ℤ
cap n = if ltb_ℤ (pos 60) n then pos 60 else n

-- `time.Duration(min(60, 5*(1<<max(0, readCount-1)))) * time.Second`
unfoldable pub retry_delay : ℤ → ℤ
retry_delay read_count = times second (cap (times 5 (shift_one (retries_before read_count))))

module _ (env : Env) (config : QueueConfig) where
  unfoldable pub complete : Message → Trace → String → Trace → Trace
  complete msg started failure_message tr =
      let e = env.complete tr msg.transport_id in
      let tr' = completed msg.transport_id e ∷ tr in
      let duration = env.since_ms started tr' in
      elim e [
        | none ↦ emit_queue_delivery_succeeded msg config.name duration tr'
        | some x ↦
            logged failure_message
            ∷ emit_queue_delivery_failed msg config.name duration completion_failed tr'
      ]

  unfoldable pub retry : Message → ℤ → Trace → Trace
  retry msg delay tr =
      let e = env.retry tr msg.transport_id delay in
      let tr' =
        emit_queue_retry_result msg config.name (not (is_none e))
          (retried msg.transport_id delay e ∷ tr) in
      elim e [ none ↦ tr' | some x ↦ logged "PGMQ retry failed" ∷ tr' ]

  unfoldable pub dead_letter : Message → String → Trace → Trace
  dead_letter msg failure_message tr =
      let e = env.dead_letter tr msg.transport_id in
      let tr' =
        emit_queue_dlq_result msg config.name (not (is_none e))
          (dead_lettered msg.transport_id e ∷ tr) in
      if is_none e || str_eq failure_message "" then tr' else logged failure_message ∷ tr'

  -- The parent context ended while the handler ran: the message goes back at once, under a context
  -- of its own.
  unfoldable pub give_back : Message → Trace → Trace → Trace
  give_back msg started tr =
      let e = env.retry tr msg.transport_id (pos 0) in
      let tr' = retried msg.transport_id (pos 0) e ∷ tr in
      emit_queue_retry_result msg config.name (not (is_none e))
        (emit_queue_delivery_requeued msg config.name (env.since_ms started tr') tr')

  unfoldable pub fail_delivery : Message → Trace → Trace → Trace
  fail_delivery msg started tr =
      emit_queue_delivery_failed msg config.name (env.since_ms started tr) handler_failed tr

  -- What follows the handler, by its result and by whether the parent context has ended.
  unfoldable pub settle : Message → Trace → Option Error → Bool → Trace → Trace
  unfolding give_back
  settle msg started e parent_done tr =
      if is_terminal_result e && not parent_done
      then complete msg started "PGMQ terminal completion failed" tr
      else if is_none e && not parent_done
      then complete msg started "PGMQ delete failed" tr
      else if parent_done
      then give_back msg started tr
      else if is_retryable e && leb_ℤ msg.read_count config.retry_limit
      then retry msg (retry_delay msg.read_count) (fail_delivery msg started tr)
      else dead_letter msg "PGMQ archive failed" (fail_delivery msg started tr)

  unfoldable pub deliver : Message → Trace → Result (List ℕ) → Trace
  deliver msg tr (err e) = dead_letter msg "" (fail_delivery msg tr tr)
  deliver msg tr (ok body) =
      let e = env.handler tr body in
      let tr' = handled body e ∷ tr in settle msg tr e (env.parent_done tr') tr'

  unfoldable pub process : Message → Trace → Trace
  unfolding deliver
  process msg tr =
      if not (str_eq msg.contract_error "")
        || not (str_eq msg.envelope.message_type config.message_type)
      then dead_letter msg "PGMQ contract-invalid archive failed" (fail_delivery msg tr tr)
      else deliver msg tr (env.payload msg.envelope)

  -- What a round of the worker does with the answer of the queue; `none` ends the loop.
  unfoldable pub after_read : Result (List Message) → Trace → Option Trace
  after_read (err e) tr =
      if env.parent_done tr then none else some (slept ∷ logged "PGMQ read failed" ∷ tr)
  after_read (ok []) tr = some (slept ∷ tr)
  after_read (ok (msg ∷ rest)) tr = some (process msg tr)

  unfoldable pub worker_round : Trace → Option Trace
  unfolding after_read
  worker_round tr =
      if env.parent_done tr || env.closed tr
      then none
      else let r = env.read tr in after_read r (message_read r ∷ tr)

  -- The trace after at most `fuel` rounds, and whether the worker has returned.
  unfoldable pub worker : ℕ → Trace → Trace × Bool
  unfolding worker_round
  worker zero tr = (tr, false)
  worker (suc fuel) tr = elim (worker_round tr) [ none ↦ (tr, true) | some tr' ↦ worker fuel tr' ]
