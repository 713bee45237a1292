-- ===== src/Mq/Publisher.antt =====
-- internal/mq/publisher.go, and what internal/mq/telemetry.go does for it. The encodings, the
-- envelopes, the queue and the database are the libraries'.
pub mod Accounting
use geul_asset_optimizer.Base.{
  ℕ, String, ◌<>◌, Bool, true, false, Option, none, some, List, [], ◌∷◌, leb, length, if◌then◌else◌,
}
use geul_asset_optimizer.Base.Int.{ℤ, pos, eq_ℤ}
use geul_asset_optimizer.Errors.{is_some, Error, message, Result, ok, err}
use geul_asset_optimizer.Effects.{M, pure, raise, ◌>>=◌, as_result, with_prefix}
use geul_asset_optimizer.Contracts.{ProgressEvent, CompleteEvent, FailEvent}
use geul_asset_optimizer.Mq.Carrier.{Headers, Program, inject_message_correlation}
use geul_asset_optimizer.Mq.World.{Envelope, QueueFailureReason, enqueue_failed}

pub data ResultEvent : Type 0 where
  completed : CompleteEvent → ResultEvent
  failed : FailEvent → ResultEvent

pub record QueuePublishContext : Type 0 where
  pub queue : String
  pub message_id : String
  pub command_id : String
  pub duration_ms : ℤ

pub data Event : Type 0 where
  enqueued : String → Envelope → Headers → ℤ → Option Error → Event
  notified : String → List ℕ → Option Error → Event
  publish_succeeded : QueuePublishContext → Event
  publish_failed : QueuePublishContext → QueueFailureReason → Event

abbrev pub Trace : Type 0
Trace = List Event

pub record Env : Type 0 where
  pub queue_mesh_optimization_result : String
  pub signal_mesh_optimization_progress : String
  pub content_type_protobuf : String
  -- `proto.Marshal`
  pub marshal_progress : ProgressEvent → Result (List ℕ)
  pub marshal_result : ResultEvent → Result (List ℕ)
  -- `eventpkg.NewEnvelope`
  pub new_envelope : String → String → List ℕ → Result Envelope
  -- `json.Marshal` of an envelope, whose error is dropped
  pub marshal_envelope : Envelope → List ℕ
  -- `sharedtelemetry.InjectCorrelation`
  pub inject_correlation : Program (Unit {0})
  pub enqueue : Trace → String → Envelope → Headers → ℤ → Option Error
  -- `pg_notify`
  pub exec_notify : Trace → String → List ℕ → Option Error
  pub now_ms : Trace → ℤ
  pub since_ms : Trace → Trace → ℤ

-- `none` is a nil connection; `some` says whether it is closed.
unfoldable pub new_publisher : Option Bool → Result (Unit {0})
new_publisher none = err (message "open PostgreSQL connection is required")
new_publisher (some true) = err (message "open PostgreSQL connection is required")
new_publisher (some false) = ok tt

-- `Publisher.Close`
abbrev pub close_publisher : Option Error
close_publisher = none

unfoldable pub set_timestamp_if_missing : ℤ → ℤ → ℤ
set_timestamp_if_missing timestamp now = if eq_ℤ timestamp (pos 0) then now else timestamp

abbrev queue_publish_context : String → String → ℤ → QueuePublishContext
queue_publish_context queue message_id duration = record {
  queue = queue;
  message_id = message_id;
  command_id = message_id;
  duration_ms = duration;
}

unfoldable pub emit_queue_publish_result : String → String → ℤ → Bool → Trace → Trace
emit_queue_publish_result queue message_id duration true tr =
    publish_failed (queue_publish_context queue message_id duration) enqueue_failed ∷ tr
emit_queue_publish_result queue message_id duration false tr =
    publish_succeeded (queue_publish_context queue message_id duration) ∷ tr

module _ (env : Env) where
  unfoldable pub send_envelope : String → Trace → Result Envelope → M Event (Unit {0})
  unfolding emit_queue_publish_result inject_message_correlation
  send_envelope message_id started (err e) tr = (err e, tr)
  send_envelope message_id started (ok envelope) tr =
      let queue = env.queue_mesh_optimization_result in
      let headers =
        inject_message_correlation env.inject_correlation
          (some (("content_type", env.content_type_protobuf) ∷ [])) in
      let e = env.enqueue tr queue envelope headers (pos 0) in
      let tr' = enqueued queue envelope headers (pos 0) e ∷ tr in
      (
        as_result e,
        emit_queue_publish_result queue message_id (env.since_ms started tr') (is_some e) tr',
      )

  unfoldable pub send_result : String → Result (List ℕ) → M Event (Unit {0})
  unfolding send_envelope
  send_result message_id (err e) tr = (with_prefix "marshal mesh result: " (err e), tr)
  send_result message_id (ok body) tr =
      send_envelope message_id tr
        (env.new_envelope message_id "api.manage.v1.MeshOptimizationResultEvent" body) tr

  unfoldable pub enqueue_result : String → ResultEvent → M Event (Unit {0})
  unfolding send_result
  enqueue_result message_id value = send_result message_id (env.marshal_result value)

  unfoldable pub notify_envelope : String → Result Envelope → M Event (Unit {0})
  notify_envelope signal (err e) tr = (err e, tr)
  notify_envelope signal (ok envelope) tr =
      let payload = env.marshal_envelope envelope in
      let e = env.exec_notify tr signal payload in
      if leb 8_000 (length payload)
      then (err (message ("signal " <> signal <> " exceeds PostgreSQL NOTIFY payload limit")), tr)
      else (as_result e, notified signal payload e ∷ tr)

  unfoldable pub notify : String → String → String → Result (List ℕ) → M Event (Unit {0})
  unfolding notify_envelope
  notify signal message_id message_type (err e) tr = (err e, tr)
  notify signal message_id message_type (ok body) tr =
      notify_envelope signal (env.new_envelope message_id message_type body) tr

  unfoldable pub publish_mesh_optimization_progress : ProgressEvent → M Event (Unit {0})
  unfolding notify set_timestamp_if_missing
  publish_mesh_optimization_progress value tr =
      let stamped = record value {
        timestamp_ms = set_timestamp_if_missing value.timestamp_ms (env.now_ms tr);
      } in
      notify env.signal_mesh_optimization_progress value.job_id
        "api.manage.v1.MeshOptimizationProgressEvent" (env.marshal_progress stamped) tr

  unfoldable pub publish_mesh_optimization_complete : CompleteEvent → M Event (Unit {0})
  unfolding enqueue_result set_timestamp_if_missing
  publish_mesh_optimization_complete value tr =
      let stamped = record value {
        timestamp_ms = set_timestamp_if_missing value.timestamp_ms (env.now_ms tr);
      } in
      enqueue_result value.job_id (completed stamped) tr

  unfoldable pub publish_mesh_optimization_fail : FailEvent → M Event (Unit {0})
  unfolding enqueue_result set_timestamp_if_missing
  publish_mesh_optimization_fail value tr =
      let stamped = record value {
        timestamp_ms = set_timestamp_if_missing value.timestamp_ms (env.now_ms tr);
      } in
      enqueue_result value.job_id (failed stamped) tr
