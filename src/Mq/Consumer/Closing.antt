-- ===== src/Mq/Consumer/Closing.antt =====
-- internal/mq/consumer.go: `Start` and `Close`, as steps of the workers and of the callers of
-- `Close`. `Start` is called once and before `Close`, as main.go does. Closing a closed channel would panic; `closeOnce` is what prevents it.
use geul_asset_optimizer.Base.{ℕ, suc, ◌+◌, Bool, true, false, ◌≡◌, ◌≢◌, arith, if◌then◌else◌, ◌||◌}
use geul_asset_optimizer.Base.Int.{ℤ, pos, negsuc}
use geul_asset_optimizer.Errors.{wrap, Result, ok, err}

-- Workers at the head of their loop, workers that process a message, whether the context has ended,
-- how often `done` was closed, and the callers of `Close` that wait, and that have returned.
pub record State : Type 0 where
  pub idle : ℕ
  pub busy : ℕ
  pub cancelled : Bool
  pub once : Bool
  pub closes : ℕ
  pub waiting : ℕ
  pub returned : ℕ

-- The iterations of `workerID < Workers`.
abbrev pub workers_of : ℤ → ℕ
workers_of (pos n) = n
workers_of (negsuc n) = 0

-- `Start`, by the answer of the readiness query.
unfoldable pub start : Result ℤ → ℤ → Result State
start (err e) workers = err (wrap "PGMQ readiness: " e "")
start (ok total_messages) workers = ok (record {
  idle = workers_of workers;
  busy = 0;
  cancelled = false;
  once = false;
  closes = 0;
  waiting = 0;
  returned = 0;
})

-- `closeOnce.Do`, which closes the channel the first time.
unfoldable pub close_once : State → State
close_once s = if s.once then s else record s { once = true; closes = suc s.closes }

pub data Step : State → State → Type 0 where
  took_message :
      (s : State) (n : ℕ) → s.idle ≡ suc n → Step s (record s { idle = n; busy = suc s.busy })
  processed :
      (s : State) (n : ℕ) → s.busy ≡ suc n → Step s (record s { busy = n; idle = suc s.idle })
  worker_returned :
      (s : State) (n : ℕ)
      → s.idle ≡ suc n
      → (s.cancelled || s.once) ≡ true
      → Step s (record s { idle = n })
  context_ended : (s : State) → Step s (record s { cancelled = true })
  close_called : (s : State) → Step s (record (close_once s) { waiting = suc s.waiting })
  -- `wg.Wait` is over when no worker is left.
  close_returned :
      (s : State) (n : ℕ)
      → s.waiting ≡ suc n
      → s.idle + s.busy ≡ 0
      → Step s (record s { waiting = n; returned = suc s.returned })

pub data Run : State → State → Type 0 where
  here : (s : State) → Run s s
  next : {s t u : State} → Run s t → Step t u → Run s u

-- The channel was closed as often as `once` says; a caller that waits or has returned has closed it;
-- and no worker is left when one has returned.
pub record IsOrderly (s : State) : Type 0 where
  pub closes : s.closes ≡ (if s.once then 1 else 0)
  pub called : s.waiting + s.returned ≢ 0 → s.once ≡ true
  pub left : s.returned ≢ 0 → s.idle + s.busy ≡ 0

Step-IsOrderly : {s t : State} → Step s t → IsOrderly s → IsOrderly t
unfolding close_once
Step-IsOrderly (took_message s n h) w = ground (arith, w)
Step-IsOrderly (processed s n h) w = ground (arith, w)
Step-IsOrderly (worker_returned s n h hd) w = ground (arith, w)
Step-IsOrderly (context_ended s) w = ground (arith, w)
Step-IsOrderly (close_called s) w = ground (arith, w)
Step-IsOrderly (close_returned s n h hw) w = ground (arith, w)

Run-IsOrderly : {s t : State} → Run s t → IsOrderly s → IsOrderly t
Run-IsOrderly (here s) w = w
Run-IsOrderly (next r st) w = Step-IsOrderly st (Run-IsOrderly r w)

start-IsOrderly :
    (ready : Result ℤ) (workers : ℤ) (s : State) → start ready workers ≡ ok s → IsOrderly s
unfolding start
start-IsOrderly (err e) workers s h = ground arith
start-IsOrderly (ok total_messages) workers s h = ground arith

-- What a started consumer reaches, however its workers and the callers of `Close` interleave, is
-- orderly: the channel is closed at most once, and when a call of `Close` has returned, no worker
-- runs and no message is being processed.
pub started-IsOrderly :
    (ready : Result ℤ) (workers : ℤ) (s t : State)
    → start ready workers ≡ ok s
    → Run s t
    → IsOrderly t
started-IsOrderly ready workers s t h r = Run-IsOrderly r (start-IsOrderly ready workers s h)
