-- ===== src/Mq/Telemetry.antt =====
-- internal/mq/telemetry.go: the records of a delivery. The correlation that it puts into and takes
-- out of the message headers is the telemetry library's.
use geul_asset_optimizer.Base.{ℕ, ◌-◌, String, ◌<>◌, ◌∷◌, Bool, true, false, if◌then◌else◌, str_eq}
use geul_asset_optimizer.Base.Int.{ℤ, pos, negsuc}
use geul_asset_optimizer.Optimizer.Options.Decimal.{print_nat, print_ℤ}
use geul_asset_optimizer.Mq.World.{
  Message, QueueDeliveryContext, QueueHandoffContext, QueueFailureReason, shutdown,
  visibility_update_failed, archive_failed, delivery_succeeded, delivery_failed, delivery_requeued,
  retry_accepted, retry_failed, dlq_accepted, dlq_failed, emitted, Trace,
}

-- `max(0, n-1)` of an int, written out.
abbrev pub retries_before : ℤ → ℕ
retries_before (pos n) = n - 1
retries_before (negsuc n) = 0

unfoldable pub queue_message_identity : Message → String × String
unfolding print_nat
queue_message_identity message =
    let stated = message.envelope.message_id in
    let message_id =
      if str_eq stated "" then "invalid:" <> print_ℤ message.transport_id else stated in
    let correlation = message.envelope.correlation_id in
    (message_id, if str_eq correlation "" then message_id else correlation)

unfoldable pub queue_delivery_context : Message → String → ℤ → QueueDeliveryContext
unfolding queue_message_identity
queue_delivery_context message queue duration =
    let (message_id, command_id) = queue_message_identity message in
    record {
      queue = queue;
      message_id = message_id;
      command_id = command_id;
      retry_count = pos (retries_before message.read_count);
      duration_ms = duration;
    }

unfoldable pub queue_handoff_context : Message → String → QueueHandoffContext
unfolding queue_message_identity
queue_handoff_context message queue =
    let (message_id, command_id) = queue_message_identity message in
    record {
      queue = queue;
      message_id = message_id;
      command_id = command_id;
      retry_count = pos (retries_before message.read_count);
    }

unfoldable pub emit_queue_delivery_succeeded : Message → String → ℤ → Trace → Trace
emit_queue_delivery_succeeded message queue duration tr =
    emitted (delivery_succeeded (queue_delivery_context message queue duration)) ∷ tr

unfoldable pub emit_queue_delivery_failed :
    Message → String → ℤ → QueueFailureReason → Trace → Trace
emit_queue_delivery_failed message queue duration reason tr =
    emitted (delivery_failed (queue_delivery_context message queue duration) reason) ∷ tr

unfoldable pub emit_queue_delivery_requeued : Message → String → ℤ → Trace → Trace
emit_queue_delivery_requeued message queue duration tr =
    emitted (delivery_requeued (queue_delivery_context message queue duration) shutdown) ∷ tr

unfoldable pub emit_queue_retry_result : Message → String → Bool → Trace → Trace
emit_queue_retry_result message queue true tr =
    emitted (retry_failed (queue_handoff_context message queue) visibility_update_failed) ∷ tr
emit_queue_retry_result message queue false tr =
    emitted (retry_accepted (queue_handoff_context message queue)) ∷ tr

unfoldable pub emit_queue_dlq_result : Message → String → Bool → Trace → Trace
emit_queue_dlq_result message queue true tr =
    emitted (dlq_failed (queue_handoff_context message queue) archive_failed) ∷ tr
emit_queue_dlq_result message queue false tr =
    emitted (dlq_accepted (queue_handoff_context message queue)) ∷ tr
