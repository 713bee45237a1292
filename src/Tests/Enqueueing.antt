-- ===== src/Tests/Enqueueing.antt =====
-- The delivery of the sample message, with a publisher whose queue takes every result.
use geul_asset_optimizer.Base.{ℕ, none, List, [], ◌≡◌, refl}
use geul_asset_optimizer.Base.Int.{pos}
use geul_asset_optimizer.Errors.{ok}
use geul_asset_optimizer.Handler.Processor.{handle_mesh_job}
use geul_asset_optimizer.Mq.Publisher.{
  Env, publish_mesh_optimization_complete, publish_mesh_optimization_fail, enqueue_result,
  send_result, send_envelope,
}
use geul_asset_optimizer.Delivery.Enqueued.{
  Publishes, IsEnqueued, replay, completed_means-IsEnqueued,
}
use geul_asset_optimizer.Samples.{
  sample_env, sample_env-PlainEnv, sample_config, sample_message, sample_queue,
}
use geul_asset_optimizer.Tests.Queue.{sample_completed}
use geul_asset_optimizer.Tests.Transport.{publisher_env}

abbrev accepting_publisher : Env
accepting_publisher = record publisher_env { enqueue = λ tr queue envelope headers delay. none }

sample_env-Publishes : Publishes sample_env accepting_publisher
unfolding publish_mesh_optimization_complete publish_mesh_optimization_fail enqueue_result
    send_result send_envelope
sample_env-Publishes = record { complete_wired = λ tr event. refl; fail_wired = λ tr event. refl }

completed_means-IsEnqueued_example :
    (body : List ℕ) × (sample_queue.payload sample_message.envelope ≡ ok body)
    × IsEnqueued accepting_publisher
        (replay accepting_publisher (handle_mesh_job sample_env (pos 50) body []).1)
completed_means-IsEnqueued_example =
    completed_means-IsEnqueued sample_queue sample_config sample_message [] (pos 50)
      (λ tr. sample_env) accepting_publisher (λ tr body. refl) (λ at. sample_env-PlainEnv)
      sample_env-Publishes sample_completed
