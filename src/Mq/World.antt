-- ===== src/Mq/World.antt =====
-- What the consumer of internal/mq talks to: the queue client, its handler, the parent context and
-- the telemetry. As in Handler/World, a reply is a function of the whole trace before the call.
-- `Message` and `Envelope` are those of the event contracts, by the fields that the program reads.
use geul_asset_optimizer.Base.{ℕ, String, Bool, Option, List}
use geul_asset_optimizer.Base.Int.{ℤ}
use geul_asset_optimizer.Mq.Carrier.{Headers}
use geul_asset_optimizer.Errors.{Error, Result}

pub record Envelope : Type 0 where
  pub message_id : String
  pub correlation_id : String
  pub message_type : String
  pub payload_base64 : String

pub record Message : Type 0 where
  pub transport_id : ℤ
  pub envelope : Envelope
  pub headers : Headers
  pub contract_error : String
  pub read_count : ℤ

pub record QueueDeliveryContext : Type 0 where
  pub queue : String
  pub message_id : String
  pub command_id : String
  pub retry_count : ℤ
  pub duration_ms : ℤ

pub record QueueHandoffContext : Type 0 where
  pub queue : String
  pub message_id : String
  pub command_id : String
  pub retry_count : ℤ

pub data QueueFailureReason : Type 0 where
  handler_failed completion_failed shutdown visibility_update_failed : QueueFailureReason
  archive_failed enqueue_failed : QueueFailureReason

pub data QueueRecord : Type 0 where
  delivery_succeeded : QueueDeliveryContext → QueueRecord
  delivery_failed : QueueDeliveryContext → QueueFailureReason → QueueRecord
  delivery_requeued : QueueDeliveryContext → QueueFailureReason → QueueRecord
  retry_accepted : QueueHandoffContext → QueueRecord
  retry_failed : QueueHandoffContext → QueueFailureReason → QueueRecord
  dlq_accepted : QueueHandoffContext → QueueRecord
  dlq_failed : QueueHandoffContext → QueueFailureReason → QueueRecord

-- What the consumer does with a message, in the trace. `retried` has the delay in nanoseconds.
pub data Event : Type 0 where
  message_read : Result (List Message) → Event
  slept : Event
  logged : String → Event
  emitted : QueueRecord → Event
  handled : List ℕ → Option Error → Event
  completed : ℤ → Option Error → Event
  retried : ℤ → ℤ → Option Error → Event
  dead_lettered : ℤ → Option Error → Event

abbrev pub Trace : Type 0
Trace = List Event

pub record Env : Type 0 where
  -- `Envelope.Payload`
  pub payload : Envelope → Result (List ℕ)
  pub handler : Trace → List ℕ → Option Error
  -- `parent.Err() != nil`
  pub parent_done : Trace → Bool
  -- `c.done` is closed
  pub closed : Trace → Bool
  -- `c.client.Read`, which asks for one message
  pub read : Trace → Result (List Message)
  pub complete : Trace → ℤ → Option Error
  pub retry : Trace → ℤ → ℤ → Option Error
  pub dead_letter : Trace → ℤ → Option Error
  -- `time.Since(startedAt).Milliseconds()`
  pub since_ms : Trace → Trace → ℤ
