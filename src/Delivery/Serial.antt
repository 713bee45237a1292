-- ===== src/Delivery/Serial.antt =====
-- How many messages the service processes at a time: internal/config/config.go fixes the number of the
-- workers that internal/mq/consumer.go starts.
use geul_asset_optimizer.Base.{ℕ, ◌+◌, ◌≤◌, String, ◌≡◌, arith}
use geul_asset_optimizer.Base.Int.{ℤ}
use geul_asset_optimizer.Errors.{Result, ok, err}
use geul_asset_optimizer.Config.{load-one_worker, Config, load, mesh_queue_config}
use geul_asset_optimizer.Mq.Consumer.Closing.{
  State, Step, Run, start, workers_of, close_once, took_message, processed, worker_returned,
  context_ended, close_called, close_returned, here, next,
}

-- No more workers than were started.
record IsManned (n : ℕ) (s : State) : Type 0 where
  manned : s.idle + s.busy ≤ n

module _ (n : ℕ) where
  Step-IsManned : {s t : State} → Step s t → IsManned n s → IsManned n t
  unfolding close_once
  Step-IsManned (took_message s k h) w = ground (arith, w)
  Step-IsManned (processed s k h) w = ground (arith, w)
  Step-IsManned (worker_returned s k h hd) w = ground (arith, w)
  Step-IsManned (context_ended s) w = ground (arith, w)
  Step-IsManned (close_called s) w = ground (arith, w)
  Step-IsManned (close_returned s k h hw) w = ground (arith, w)

  Run-IsManned : {s t : State} → Run s t → IsManned n s → IsManned n t
  Run-IsManned (here s) w = w
  Run-IsManned (next r st) w = Step-IsManned st (Run-IsManned r w)

start-IsManned :
    (ready : Result ℤ) (workers : ℤ) (s : State)
    → start ready workers ≡ ok s
    → IsManned (workers_of workers) s
unfolding start
start-IsManned (err e) workers s h = ground arith
start-IsManned (ok total_messages) workers s h = ground arith

-- A consumer that is started with a configuration that was loaded never processes two messages at
-- once, however its worker and the callers of `Close` interleave.
pub loaded_is_serial :
    (decoded : Result Config) (fresh queue : String) (cfg : Config) (ready : Result ℤ) (s t : State)
    → load decoded fresh ≡ ok cfg
    → start ready (mesh_queue_config queue cfg).workers ≡ ok s
    → Run s t
    → t.busy ≤ 1
unfolding mesh_queue_config
loaded_is_serial decoded fresh queue cfg ready s t loaded started r = ground (
  arith,
  (Run-IsManned _ r (start-IsManned ready _ s started)).manned,
  load-one_worker decoded fresh cfg loaded,
)
