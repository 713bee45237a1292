-- ===== src/Tests/Queue.antt =====
-- The consumer on one message, with a handler that succeeds and one that fails.
use geul_asset_optimizer.Base.{
  none, is_none, ℕ, true, false, some, List, [], ◌∷◌, ◌≡◌, refl, ◌≤◌, ◌||◌, ◌↔◌, arith,
}
use geul_asset_optimizer.Base.Int.{pos, leb_ℤ}
use geul_asset_optimizer.Errors.{ok, is_terminal_result}
use geul_asset_optimizer.Handler.Processor.{handle_mesh_job}
use geul_asset_optimizer.Handler.Outcome.{answer}
use geul_asset_optimizer.Mq.Telemetry.{emit_queue_delivery_succeeded}
use geul_asset_optimizer.Mq.World.{Trace, handled}
use geul_asset_optimizer.Mq.Consumer.{settle, complete, process, retry_delay, worker}
use geul_asset_optimizer.Mq.Consumer.Dispositions.{done, again, Disposition, dispositions}
use geul_asset_optimizer.Mq.Consumer.Policy.{
  message_of, IsAccepted, process_disposes_once, process_completes_only,
}
use geul_asset_optimizer.Mq.Consumer.Retries.{ReadAgain, process_retries_iff}
use geul_asset_optimizer.Mq.Consumer.Backoff.{
  ideal_delay, retry_delay_exact, retry_delay_mono, retry_delay_lost,
}
use geul_asset_optimizer.Mq.Consumer.Loop.{reads, worker_returns}
use geul_asset_optimizer.Mq.Consumer.Accounts.{disposed_of, taken, worker_disposes_of_taken}
use geul_asset_optimizer.Tests.Handling.{sample_job_succeeds}
use geul_asset_optimizer.Delivery.{completed_means_announced}
use geul_asset_optimizer.Samples.{
  sample_env, sample_env-PlainEnv, sample_config, sample_message, sample_queue,
  sample_failing_queue,
}

pub sample_completed :
    dispositions (process sample_queue sample_config sample_message [])
    ≡ done (pos 7) ∷ dispositions []
unfolding process settle complete emit_queue_delivery_succeeded is_terminal_result
sample_completed = rw (sample_job_succeeds, process) refl

completed_means_announced_test :
    (body : List ℕ) × (sample_queue.payload sample_message.envelope ≡ ok body)
    × (answer (handle_mesh_job sample_env (pos 50) body []).1 ≡ some none)
completed_means_announced_test =
    completed_means_announced sample_queue sample_config sample_message [] (pos 50)
      (λ tr. sample_env) (λ tr body. refl) (λ at. sample_env-PlainEnv) sample_completed

process_disposes_once_example :
    (d : Disposition) × (dispositions (process sample_queue sample_config sample_message [])
      ≡ d ∷ dispositions [])
    × (message_of d ≡ pos 7)
process_disposes_once_example = process_disposes_once sample_queue sample_config sample_message []

process_completes_only_example :
    IsAccepted sample_config sample_message
    × ((body : List ℕ) × (sample_queue.payload sample_message.envelope ≡ ok body)
        × ((is_none (sample_queue.handler [] body)
              || is_terminal_result (sample_queue.handler [] body))
            ≡ true)
        × (sample_queue.parent_done (handled body (sample_queue.handler [] body) ∷ []) ≡ false))
process_completes_only_example =
    process_completes_only sample_queue sample_config sample_message [] sample_completed

retry_delay_exact_example : retry_delay (pos 3) ≡ ideal_delay 2
retry_delay_exact_example = retry_delay_exact 2 (omega arith)

retry_delay_mono_example : leb_ℤ (retry_delay (pos 1)) (retry_delay (pos 2)) ≡ true
retry_delay_mono_example = retry_delay_mono 0 (omega arith)

retry_delay_lost_example : retry_delay (pos 65) ≡ pos 0
retry_delay_lost_example = retry_delay_lost 64 (omega arith)

sample_queue_closes :
    (tr : Trace) → 2 ≤ reads tr → (sample_queue.parent_done tr || sample_queue.closed tr) ≡ true
sample_queue_closes tr h = ground arith

worker_returns_example : (worker sample_queue sample_config 3 []).1 ≡ true
worker_returns_example =
    worker_returns sample_queue sample_config 2 sample_queue_closes 3 [] (omega arith)

worker_disposes_of_taken_example :
    disposed_of (worker sample_queue sample_config 3 []).0
    ≡ taken (worker sample_queue sample_config 3 []).0
worker_disposes_of_taken_example = worker_disposes_of_taken sample_queue sample_config 3

-- The first delivery of a message whose result could not be announced goes back for five seconds.
process_retries_iff_example :
    (dispositions (process sample_failing_queue sample_config sample_message [])
      ≡ again (pos 7) (ideal_delay 0) ∷ dispositions [])
    ↔ (IsAccepted sample_config sample_message
        × ReadAgain sample_failing_queue sample_config sample_message
            (ideal_delay 0)
            (ideal_delay 0)
            [])
process_retries_iff_example =
    process_retries_iff sample_failing_queue sample_config sample_message [] (ideal_delay 0) 0 refl
      (omega arith)
