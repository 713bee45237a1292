-- ===== src/Mq/Consumer/Loop.antt =====
-- The worker's loop.
use geul_asset_optimizer.Base.{
  length, Option-cases, ap, leb, ℕ, zero, suc, ◌-◌, ◌≤◌, ◌<◌, ◌≡◌, Bool, true, some, List, [], ◌∷◌,
  arith, ◌||◌, Bool-cases, inl, inr,
}
use geul_asset_optimizer.Mq.Consumer.Reads.{read_answers, read_answers-process}
use geul_asset_optimizer.Errors.{Result, ok, err}
use geul_asset_optimizer.Jobs.{QueueConfig}
use geul_asset_optimizer.Mq.World.{Message, message_read, Trace, Env}
use geul_asset_optimizer.Mq.Consumer.{after_read, worker_round, worker}

-- How often the queue was read.
abbrev pub reads : Trace → ℕ
reads tr = length (read_answers tr)

module _ (env : Env) (config : QueueConfig) where
  read_answers-after_read :
      (r : Result (List Message)) (tr tr' : Trace)
      → after_read env config r tr ≡ some tr'
      → read_answers tr' ≡ read_answers tr
  unfolding after_read
  read_answers-after_read (err e) tr tr' h = ground arith
  read_answers-after_read (ok []) tr tr' h = ground arith
  read_answers-after_read (ok (msg ∷ rest)) tr tr' h =
      ground (arith, read_answers-process env config msg tr)

  -- A round that does not end the loop reads the queue once.
  reads-worker_round :
      (tr tr' : Trace) → worker_round env config tr ≡ some tr' → reads tr' ≡ suc (reads tr)
  unfolding worker_round
  reads-worker_round tr tr' h =
      ground (arith, read_answers-after_read (env.read tr) (message_read (env.read tr) ∷ tr) tr')

  -- Once the context has ended or the consumer is closed, the worker returns at the next round, with
  -- no further call.
  worker_stops :
      (fuel : ℕ) (tr : Trace)
      → (env.parent_done tr || env.closed tr) ≡ true
      → worker env config (suc fuel) tr ≡ (tr, true)
  unfolding worker worker_round
  worker_stops fuel tr h = ground arith

  -- If the context ends or the consumer is closed by the time that the queue was read `limit`
  -- times, the worker returns: one more round than the reads that are left is fuel enough.
  pub worker_returns :
      (limit : ℕ)
      → ((tr : Trace) → limit ≤ reads tr → (env.parent_done tr || env.closed tr) ≡ true)
      → (fuel : ℕ) (tr : Trace) → limit - reads tr < fuel
      → (worker env config fuel tr).1 ≡ true
  unfolding worker
  worker_returns limit ends zero tr h = elim h [ ]
  worker_returns limit ends (suc fuel) tr h = elim (Bool-cases (leb limit (reads tr))) [
    | inl over ↦ ap (λ (x : Trace × Bool). x.1) (worker_stops fuel tr (ends tr (ground arith)))
    | inr early ↦ elim (Option-cases (worker_round env config tr)) [
      | inl stop ↦ rw (stop, worker)
      | inr (tr', next) ↦
          rw (next, worker)
            (worker_returns limit ends fuel tr' (ground (arith, reads-worker_round tr tr' next)))
    ]
  ]
