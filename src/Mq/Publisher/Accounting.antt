-- ===== src/Mq/Publisher/Accounting.antt =====
-- What any sequence of publications through internal/mq/publisher.go leaves in the trace: the
-- answers, the enqueued results and the telemetry agree, and no notification is too long.
use geul_asset_optimizer.Base.{
  String, subst, ℕ, suc, ◌+◌, ◌<◌, Option, none, some, List, [], ◌∷◌, length, ◌≡◌, refl, arith,
}
use geul_asset_optimizer.Errors.{is_some, one_if_ok, Error, Result, ok, err}
use geul_asset_optimizer.Contracts.{ProgressEvent, CompleteEvent, FailEvent}
use geul_asset_optimizer.Mq.Carrier.{Headers}
use geul_asset_optimizer.Mq.Publisher.{
  as_result, ℤ, Envelope, Event, enqueued, notified, publish_succeeded, publish_failed, Trace, Env,
  send_envelope, send_result, enqueue_result, notify_envelope, notify, emit_queue_publish_result,
  publish_mesh_optimization_progress, publish_mesh_optimization_complete,
  publish_mesh_optimization_fail,
}

pub data Publication : Type 0 where
  progress : ProgressEvent → Publication
  complete : CompleteEvent → Publication
  fail : FailEvent → Publication

-- How often: results enqueued, refused by the queue, recorded as published, recorded as failed.
pub record Tally : Type 0 where
  pub sent : ℕ
  pub refused : ℕ
  pub succeeded : ℕ
  pub failed : ℕ

abbrev pub add_event : Event → Tally → Tally
add_event (enqueued queue envelope headers delay none) t = record t { sent = suc t.sent }
add_event (enqueued queue envelope headers delay (some e)) t = record t { refused = suc t.refused }
add_event (notified signal payload e) t = t
add_event (publish_succeeded publish) t = record t { succeeded = suc t.succeeded }
add_event (publish_failed publish reason) t = record t { failed = suc t.failed }

unfoldable pub tally : Trace → Tally
tally [] = record { sent = 0; refused = 0; succeeded = 0; failed = 0 }
tally (e ∷ tr) = add_event e (tally tr)

-- Every notification is shorter than the limit of PostgreSQL.
abbrev pub IsShort : Event → Type 0
IsShort (notified signal payload e) = length payload < 8_000
IsShort _ = Unit {0}

abbrev pub AllShort : Trace → Type 0
AllShort [] = Unit {0}
AllShort (e ∷ tr) = IsShort e × AllShort tr

-- The trace agrees with the number of results whose publication returned no error.
pub record IsAccounted (answered : ℕ) (tr : Trace) : Type 0 where
  pub sent : (tally tr).sent ≡ answered
  pub succeeded : (tally tr).succeeded ≡ answered
  pub failed : (tally tr).failed ≡ (tally tr).refused
  pub short : AllShort tr

nothing_published : IsAccounted 0 []
unfolding tally
nothing_published = record { sent = refl; succeeded = refl; failed = refl; short = tt }

module _ (env : Env) where
  -- The publication, by the number of results that it answers for.
  unfoldable pub publish : Publication → Trace → ℕ × Trace
  publish (progress value) tr =
      let (r, tr') = publish_mesh_optimization_progress env value tr in (0, tr')
  publish (complete value) tr =
      let (r, tr') = publish_mesh_optimization_complete env value tr in (one_if_ok r, tr')
  publish (fail value) tr =
      let (r, tr') = publish_mesh_optimization_fail env value tr in (one_if_ok r, tr')

  unfoldable pub publish_all : List Publication → Trace → ℕ × Trace
  unfolding publish
  publish_all [] tr = (0, tr)
  publish_all (p ∷ ps) tr =
      let (n, tr') = publish p tr in let (k, end) = publish_all ps tr' in (n + k, end)

  enqueued-IsAccounted :
      (queue message_id : String) (envelope : Envelope) (headers : Headers) (delay duration : ℤ)
      (e : Option Error) (a : ℕ) (tr : Trace)
      → IsAccounted a tr
      → IsAccounted (a + one_if_ok (as_result e)) (
          emit_queue_publish_result queue message_id duration
            (is_some e)
            (enqueued queue envelope headers delay e ∷ tr))
  unfolding emit_queue_publish_result tally
  enqueued-IsAccounted queue message_id envelope headers delay duration none a tr h =
      ground (arith, h)
  enqueued-IsAccounted queue message_id envelope headers delay duration (some e) a tr h =
      ground (arith, h)

  unanswered : (a : ℕ) (tr : Trace) → IsAccounted a tr → IsAccounted (a + 0) tr
  unanswered a tr h = ground (arith, h)

  send_envelope-IsAccounted :
      (message_id : String) (started : Trace) (envelope : Result Envelope) (a : ℕ) (tr : Trace)
      → IsAccounted a tr
      → let r = send_envelope env message_id started envelope tr in
        IsAccounted (a + one_if_ok r.0) r.1
  unfolding send_envelope
  send_envelope-IsAccounted message_id started (err e) a tr h = unanswered a tr h
  send_envelope-IsAccounted message_id started (ok envelope) a tr h =
      enqueued-IsAccounted _ message_id envelope _ _ _ (env.enqueue tr _ envelope _ _) a tr h

  send_result-IsAccounted :
      (message_id : String) (body : Result (List ℕ)) (a : ℕ) (tr : Trace)
      → IsAccounted a tr
      → let r = send_result env message_id body tr in IsAccounted (a + one_if_ok r.0) r.1
  unfolding send_result
  send_result-IsAccounted message_id (err e) a tr h = unanswered a tr h
  send_result-IsAccounted message_id (ok body) a tr h =
      send_envelope-IsAccounted message_id tr _ a tr h

  notify_envelope-IsAccounted :
      (signal : String) (envelope : Result Envelope) (a : ℕ) (tr : Trace)
      → IsAccounted a tr
      → IsAccounted (a + 0) (notify_envelope env signal envelope tr).1
  unfolding notify_envelope tally
  notify_envelope-IsAccounted signal (err e) a tr h = unanswered a tr h
  notify_envelope-IsAccounted signal (ok envelope) a tr h = ground (arith, h)

  notify-IsAccounted :
      (signal message_id message_type : String) (body : Result (List ℕ)) (a : ℕ) (tr : Trace)
      → IsAccounted a tr
      → IsAccounted (a + 0) (notify env signal message_id message_type body tr).1
  unfolding notify
  notify-IsAccounted signal message_id message_type (err e) a tr h = unanswered a tr h
  notify-IsAccounted signal message_id message_type (ok body) a tr h =
      notify_envelope-IsAccounted signal (env.new_envelope message_id message_type body) a tr h

  publish-IsAccounted :
      (p : Publication) (a : ℕ) (tr : Trace)
      → IsAccounted a tr
      → IsAccounted (a + (publish p tr).0) (publish p tr).1
  unfolding publish publish_mesh_optimization_progress publish_mesh_optimization_complete
      publish_mesh_optimization_fail enqueue_result
  publish-IsAccounted (progress value) a tr h =
      notify-IsAccounted _ _ _ (env.marshal_progress _) a tr h
  publish-IsAccounted (complete value) a tr h =
      send_result-IsAccounted _ (env.marshal_result _) a tr h
  publish-IsAccounted (fail value) a tr h = send_result-IsAccounted _ (env.marshal_result _) a tr h

  publish_all-IsAccounted' :
      (ps : List Publication) (a : ℕ) (tr : Trace)
      → IsAccounted a tr
      → IsAccounted (a + (publish_all ps tr).0) (publish_all ps tr).1
  unfolding publish_all
  publish_all-IsAccounted' [] a tr h = unanswered a tr h
  publish_all-IsAccounted' (p ∷ ps) a tr h =
      let (n, after) = publish p tr in
      let rest = publish_all-IsAccounted' ps (a + n) after (publish-IsAccounted p a tr h) in
      subst (λ k. IsAccounted k (publish_all ps after).1) (omega arith) rest

  -- After any sequence of publications, as many results are in the queue, and as many are recorded as
  -- published, as publications of results returned no error; as many are recorded as failed as the
  -- queue refused; and every notification that was sent is shorter than 8000 bytes.
  pub publish_all-IsAccounted :
      (ps : List Publication) → IsAccounted (publish_all ps []).0 (publish_all ps []).1
  publish_all-IsAccounted ps =
      subst (λ k. IsAccounted k (publish_all ps []).1) (omega arith)
        (publish_all-IsAccounted' ps 0 [] nothing_published)
