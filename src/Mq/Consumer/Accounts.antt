-- ===== src/Mq/Consumer/Accounts.antt =====
-- The account of a worker: what it takes from the queue, and what becomes of it.
use geul_asset_optimizer.Base.{
  subst, ℕ, zero, suc, ◌≡◌, refl, ap, some, List, [], ◌∷◌, map, arith, Option-cases, inl, inr,
}
use geul_asset_optimizer.Base.Int.{ℤ}
use geul_asset_optimizer.Errors.{Result, ok, err}
use geul_asset_optimizer.Jobs.{QueueConfig}
use geul_asset_optimizer.Mq.World.{Message, message_read, Trace, Env}
use geul_asset_optimizer.Mq.Consumer.{process, after_read, worker_round, worker}
use geul_asset_optimizer.Mq.Consumer.Reads.{read_answers, read_answers-process}
use geul_asset_optimizer.Mq.Consumer.Dispositions.{dispositions}
use geul_asset_optimizer.Mq.Consumer.Policy.{message_of, message_of-disposed, dispositions-process}

-- The message that an answer of the queue hands over, before those of `rest`: the first one.
abbrev pub handed_over : Result (List Message) → List ℤ → List ℤ
handed_over (err e) rest = rest
handed_over (ok []) rest = rest
handed_over (ok (msg ∷ others)) rest = msg.transport_id ∷ rest

-- The messages that the answers hand over.
abbrev pub handed : List (Result (List Message)) → List ℤ
handed [] = []
handed (r ∷ answers) = handed_over r (handed answers)

-- The transport ids of the messages that were read, newest first.
abbrev pub taken : Trace → List ℤ
taken tr = handed (read_answers tr)

-- The transport ids of the messages that were disposed of, newest first.
abbrev pub disposed_of : Trace → List ℤ
disposed_of tr = map message_of (dispositions tr)

-- Every message that was taken was disposed of, once and in its turn.
pub record IsSettled (tr : Trace) : Type 0 where
  pub settled : disposed_of tr ≡ taken tr

some_eq : {A : Type 0} {x y : A} → some x ≡ some y → x ≡ y
some_eq h = cc

module _ (env : Env) (config : QueueConfig) where
  processed_settled :
      (msg : Message) (tr : Trace)
      → msg.transport_id ∷ disposed_of tr ≡ taken tr
      → disposed_of (process env config msg tr) ≡ taken (process env config msg tr)
  processed_settled msg tr h =
      rw (read_answers-process env config msg tr, dispositions-process env config msg tr)
        (rw (message_of-disposed env config msg tr) h)

  after_read-IsSettled :
      (r : Result (List Message)) (tr tr' : Trace)
      → IsSettled tr
      → after_read env config r (message_read r ∷ tr) ≡ some tr'
      → IsSettled tr'
  unfolding after_read
  after_read-IsSettled (err e) tr tr' w h = record { settled = ground (arith, w.settled) }
  after_read-IsSettled (ok []) tr tr' w h = record { settled = ground (arith, w.settled) }
  after_read-IsSettled (ok (msg ∷ rest)) tr tr' w h = record {
    settled =
        subst (λ t. disposed_of t ≡ taken t) (some_eq h)
          (processed_settled msg _ (ap (λ ids. msg.transport_id ∷ ids) w.settled));
  }

  worker_round-IsSettled :
      (tr tr' : Trace) → IsSettled tr → worker_round env config tr ≡ some tr' → IsSettled tr'
  unfolding worker_round
  worker_round-IsSettled tr tr' w h =
      after_read-IsSettled (env.read tr) tr tr' w (ground (arith, h))

  worker-IsSettled :
      (fuel : ℕ) (tr : Trace) → IsSettled tr → IsSettled (worker env config fuel tr).0
  unfolding worker
  worker-IsSettled zero tr w = w
  worker-IsSettled (suc fuel) tr w = elim (Option-cases (worker_round env config tr)) [
    | inl stop ↦ rw (stop, worker) w
    | inr (tr', next) ↦
        rw (next, worker) (worker-IsSettled fuel tr' (worker_round-IsSettled tr tr' w next))
  ]

  -- However many rounds a worker makes and whatever the queue, the handler and the contexts answer, the
  -- messages that it disposed of are those that it took from the queue, each once and in that order.
  pub worker_disposes_of_taken :
      (fuel : ℕ) → disposed_of (worker env config fuel []).0 ≡ taken (worker env config fuel []).0
  worker_disposes_of_taken fuel = (worker-IsSettled fuel [] (record { settled = refl })).settled
