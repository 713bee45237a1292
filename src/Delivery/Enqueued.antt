-- ===== src/Delivery/Enqueued.antt =====
-- A delivery down to the result queue: the processor of internal/handler with the publisher of
-- internal/mq, which cmd/asset-optimizer/main.go puts together.
use geul_asset_optimizer.Base.{
  String, ℕ, Option, none, some, List, [], ◌∷◌, ◌≡◌, refl, ◌∙◌, sym, arith,
}
use geul_asset_optimizer.Base.Int.{ℤ}
use geul_asset_optimizer.Errors.{error_of, is_some, Error, Result, ok, err}
use geul_asset_optimizer.Effects.{as_result}
use geul_asset_optimizer.Contracts.{ProgressEvent, CompleteEvent, FailEvent}
use geul_asset_optimizer.Jobs.{QueueConfig}
use geul_asset_optimizer.Handler.World
use geul_asset_optimizer.Handler.World.{
  span_started, span_failed, span_ended, emitted, warned, progress_published, complete_published,
  fail_published, work_dir_created, work_dir_cleaned, object_sized, downloaded, file_statted,
  inspected, optimized, file_opened, file_hashed, file_closed, uploaded,
}
use geul_asset_optimizer.Handler.Processor.{handle_mesh_job}
use geul_asset_optimizer.Handler.Outcome.{PlainEnv, Announced}
use geul_asset_optimizer.Handler.Outcome.Acknowledged.{acknowledged_replied}
use geul_asset_optimizer.Mq
use geul_asset_optimizer.Mq.World.{Envelope, Message}
use geul_asset_optimizer.Mq.Consumer.{process}
use geul_asset_optimizer.Mq.Consumer.Dispositions.{done, dispositions}
use geul_asset_optimizer.Mq.Consumer.Policy.{process_completes_only}
use geul_asset_optimizer.Mq.Carrier.{Headers}
use geul_asset_optimizer.Mq.Publisher.{
  ResultEvent, completed, failed, enqueued, notified, publish_succeeded, publish_failed, Trace, Env,
  emit_queue_publish_result, send_envelope, send_result, enqueue_result, notify_envelope, notify,
  publish_mesh_optimization_progress, publish_mesh_optimization_complete,
  publish_mesh_optimization_fail,
}
use geul_asset_optimizer.Delivery.{Handles}

-- The calls of the publisher that the trace of a processor stands for.
unfoldable pub replay : Env → World.Trace → Trace
replay env [] = []
replay env (progress_published event answered ∷ tr) =
    (publish_mesh_optimization_progress env event (replay env tr)).1
replay env (complete_published event answered ∷ tr) =
    (publish_mesh_optimization_complete env event (replay env tr)).1
replay env (fail_published event answered ∷ tr) =
    (publish_mesh_optimization_fail env event (replay env tr)).1
replay env (_ ∷ tr) = replay env tr

-- `deps.newProcessor(..., publisher)`: the processor's results go to the publisher.
pub record Publishes (services : World.Env) (env : Env) : Type 0 where
  pub complete_wired :
      (tr : World.Trace) (event : CompleteEvent)
      → services.publish_complete tr event
        ≡ error_of (publish_mesh_optimization_complete env event (replay env tr)).0
  pub fail_wired :
      (tr : World.Trace) (event : FailEvent)
      → services.publish_fail tr event
        ≡ error_of (publish_mesh_optimization_fail env event (replay env tr)).0

-- The newest envelope that was given to the result queue, and the queue's answer.
abbrev pub newest : Trace → Option (Envelope × Option Error)
newest [] = none
newest (enqueued queue envelope headers delay answered ∷ tr) = some (envelope, answered)
newest (notified signal payload answered ∷ tr) = newest tr
newest (publish_succeeded publish ∷ tr) = newest tr
newest (publish_failed publish reason ∷ tr) = newest tr

abbrev pub result_job_id : ResultEvent → String
result_job_id (completed event) = event.job_id
result_job_id (failed event) = event.job_id

-- The newest envelope carries an encoded result under its job's id, and the queue accepted it.
pub record IsEnqueued (env : Env) (tr : Trace) : Type 0 where
  pub result : ResultEvent
  pub body : List ℕ
  pub envelope : Envelope
  pub encoded : env.marshal_result result ≡ ok body
  pub enveloped :
      env.new_envelope (result_job_id result) "api.manage.v1.MeshOptimizationResultEvent" body
      ≡ ok envelope
  pub accepted : newest tr ≡ some (envelope, none)

module _ (env : Env) where
  accepted_newest :
      (queue message_id : String) (envelope : Envelope) (headers : Headers) (delay duration : ℤ)
      (e : Option Error) (tr : Trace)
      → error_of (as_result e) ≡ none
      → newest (
          emit_queue_publish_result queue message_id duration
            (is_some e)
            (enqueued queue envelope headers delay e ∷ tr))
        ≡ some (envelope, none)
  unfolding emit_queue_publish_result
  accepted_newest queue message_id envelope headers delay duration none tr h = refl
  accepted_newest queue message_id envelope headers delay duration (some e) tr h = cc

  envelope_sent :
      (message_id : String) (started : Trace) (r : Result Envelope) (tr : Trace)
      → error_of (send_envelope env message_id started r tr).0 ≡ none
      → (envelope : Envelope) × (r ≡ ok envelope)
        × (newest (send_envelope env message_id started r tr).1 ≡ some (envelope, none))
  unfolding send_envelope
  envelope_sent message_id started (err e) tr h = cc
  envelope_sent message_id started (ok envelope) tr h = (
    envelope,
    refl,
    accepted_newest _ message_id envelope _ _ _ (env.enqueue tr _ envelope _ _) tr h,
  )

  result_sent :
      (result : ResultEvent) (r : Result (List ℕ)) (tr : Trace)
      → env.marshal_result result ≡ r
      → error_of (send_result env (result_job_id result) r tr).0 ≡ none
      → IsEnqueued env (send_result env (result_job_id result) r tr).1
  unfolding send_result
  result_sent result (err e) tr encoded h = cc
  result_sent result (ok body) tr encoded h =
      let (envelope, enveloped, accepted) =
        envelope_sent (result_job_id result) tr
          (env.new_envelope (result_job_id result) "api.manage.v1.MeshOptimizationResultEvent" body)
          tr h in
      record {
        result = result;
        body = body;
        envelope = envelope;
        encoded = encoded;
        enveloped = enveloped;
        accepted = accepted;
      }

  complete_sent :
      (event : CompleteEvent) (tr : Trace)
      → error_of (publish_mesh_optimization_complete env event tr).0 ≡ none
      → IsEnqueued env (publish_mesh_optimization_complete env event tr).1
  unfolding publish_mesh_optimization_complete enqueue_result
  complete_sent event tr h = result_sent _ (env.marshal_result _) tr refl h

  fail_sent :
      (event : FailEvent) (tr : Trace)
      → error_of (publish_mesh_optimization_fail env event tr).0 ≡ none
      → IsEnqueued env (publish_mesh_optimization_fail env event tr).1
  unfolding publish_mesh_optimization_fail enqueue_result
  fail_sent event tr h = result_sent _ (env.marshal_result _) tr refl h

  newest-notify_envelope :
      (signal : String) (r : Result Envelope) (tr : Trace)
      → newest (notify_envelope env signal r tr).1 ≡ newest tr
  unfolding notify_envelope
  newest-notify_envelope signal (err e) tr = refl
  newest-notify_envelope signal (ok envelope) tr = ground arith

  newest-notify :
      (signal message_id message_type : String) (r : Result (List ℕ)) (tr : Trace)
      → newest (notify env signal message_id message_type r tr).1 ≡ newest tr
  unfolding notify
  newest-notify signal message_id message_type (err e) tr = refl
  newest-notify signal message_id message_type (ok body) tr =
      newest-notify_envelope signal (env.new_envelope message_id message_type body) tr

  newest-progress :
      (event : ProgressEvent) (tr : Trace)
      → newest (publish_mesh_optimization_progress env event tr).1 ≡ newest tr
  unfolding publish_mesh_optimization_progress
  newest-progress event tr = newest-notify _ _ _ (env.marshal_progress _) tr

  still-IsEnqueued :
      (tr tr' : Trace) → newest tr' ≡ newest tr → IsEnqueued env tr → IsEnqueued env tr'
  still-IsEnqueued tr tr' h k = record {
    result = k.result;
    body = k.body;
    envelope = k.envelope;
    encoded = k.encoded;
    enveloped = k.enveloped;
    accepted = h ∙ k.accepted;
  }

  Announced-IsEnqueued :
      (services : World.Env) (tr : World.Trace)
      → Publishes services env
      → Announced services tr none
      → IsEnqueued env (replay env tr)
  unfolding replay
  Announced-IsEnqueued services [] p h = elim h [ ]
  Announced-IsEnqueued services (progress_published event answered ∷ tr) p h =
      still-IsEnqueued (replay env tr) _ (newest-progress event (replay env tr))
        (Announced-IsEnqueued services tr p h)
  Announced-IsEnqueued services (complete_published event answered ∷ tr) p (h, replied) =
      complete_sent event (replay env tr) (sym (p.complete_wired tr event) ∙ replied)
  Announced-IsEnqueued services (fail_published event answered ∷ tr) p (h, replied) =
      fail_sent event (replay env tr) (sym (p.fail_wired tr event) ∙ replied)
  Announced-IsEnqueued services (span_started a ∷ tr) p h = Announced-IsEnqueued services tr p h
  Announced-IsEnqueued services (span_failed a ∷ tr) p h = Announced-IsEnqueued services tr p h
  Announced-IsEnqueued services (span_ended ∷ tr) p h = Announced-IsEnqueued services tr p h
  Announced-IsEnqueued services (emitted a ∷ tr) p h = Announced-IsEnqueued services tr p h
  Announced-IsEnqueued services (warned a ∷ tr) p h = Announced-IsEnqueued services tr p h
  Announced-IsEnqueued services (work_dir_created a b ∷ tr) p h =
      Announced-IsEnqueued services tr p h
  Announced-IsEnqueued services (work_dir_cleaned a b ∷ tr) p h =
      Announced-IsEnqueued services tr p h
  Announced-IsEnqueued services (object_sized a b ∷ tr) p h = Announced-IsEnqueued services tr p h
  Announced-IsEnqueued services (downloaded a b c ∷ tr) p h = Announced-IsEnqueued services tr p h
  Announced-IsEnqueued services (file_statted a b ∷ tr) p h = Announced-IsEnqueued services tr p h
  Announced-IsEnqueued services (inspected a b ∷ tr) p h = Announced-IsEnqueued services tr p h
  Announced-IsEnqueued services (optimized a b c d ∷ tr) p h = Announced-IsEnqueued services tr p h
  Announced-IsEnqueued services (file_opened a b ∷ tr) p h = Announced-IsEnqueued services tr p h
  Announced-IsEnqueued services (file_hashed a b ∷ tr) p h = Announced-IsEnqueued services tr p h
  Announced-IsEnqueued services (file_closed a ∷ tr) p h = Announced-IsEnqueued services tr p h
  Announced-IsEnqueued services (uploaded a b c d ∷ tr) p h = Announced-IsEnqueued services tr p h

-- When the consumer's handler is the processor, its results go to the publisher, and the errors of its
-- services are plain: a command is completed, that is taken off its queue, only if the newest envelope
-- that the processor's run gave to the result queue carries an encoded result under its job's id and
-- was accepted.
pub completed_means-IsEnqueued :
    (env : Mq.World.Env) (config : QueueConfig) (msg : Message) (tr : Mq.World.Trace)
    (max_input_bytes : ℤ) (services : Mq.World.Trace → World.Env) (publisher : Env)
    → Handles env max_input_bytes services
    → ((at : Mq.World.Trace) → PlainEnv (services at))
    → Publishes (services tr) publisher
    → dispositions (process env config msg tr) ≡ done msg.transport_id ∷ dispositions tr
    → (body : List ℕ) × (env.payload msg.envelope ≡ ok body)
      × IsEnqueued publisher
          (replay publisher (handle_mesh_job (services tr) max_input_bytes body []).1)
completed_means-IsEnqueued env config msg tr max_input_bytes services publisher handles plain wired
      h =
    let (accepted, (body, read, fine, live)) = process_completes_only env config msg tr h in
    (
      body,
      read,
      Announced-IsEnqueued publisher (services tr) _ wired (
          acknowledged_replied (services tr) (plain tr) max_input_bytes body
            (rw (handles tr body) at fine)),
    )
