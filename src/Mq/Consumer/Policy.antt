-- ===== src/Mq/Consumer/Policy.antt =====
-- How the disposition of a message follows from what was read and answered.
use geul_asset_optimizer.Base.{
  sym, ℕ, ◌≡◌, refl, ◌∙◌, true, false, List, ◌∷◌, arith, str_eq, eq_iff, is_none, ◌||◌,
}
use geul_asset_optimizer.Base.Int.{ℤ}
use geul_asset_optimizer.Errors.{Result, ok, err, is_terminal_result}
use geul_asset_optimizer.Jobs.{QueueConfig}
use geul_asset_optimizer.Mq.World.{Message, handled, Trace, Env}
use geul_asset_optimizer.Mq.Consumer.{fail_delivery, deliver, process}
use geul_asset_optimizer.Mq.Consumer.Dispositions.{
  Disposition, done, again, dead, dispositions, verdict, dispositions-settle,
  dispositions-dead_letter, dispositions-fail_delivery,
}

abbrev pub message_of : Disposition → ℤ
message_of (done id) = id
message_of (again id delay) = id
message_of (dead id) = id

-- A message that the queue and the configuration vouch for.
abbrev pub IsAccepted : QueueConfig → Message → Type 0
IsAccepted config msg =
    (msg.contract_error ≡ "") × (msg.envelope.message_type ≡ config.message_type)

module _ (env : Env) (config : QueueConfig) (msg : Message) where
  -- The disposition that a delivery comes to, by what was read out of the message.
  abbrev pub delivered : Trace → Result (List ℕ) → Disposition
  delivered tr (err e) = dead msg.transport_id
  delivered tr (ok body) =
      let e = env.handler tr body in
      verdict env config msg e (env.parent_done (handled body e ∷ tr))

  dispositions-deliver :
      (tr : Trace) (payload : Result (List ℕ))
      → dispositions (deliver env config msg tr payload) ≡ delivered tr payload ∷ dispositions tr
  unfolding deliver
  dispositions-deliver tr (err e) = ground (
    arith,
    dispositions-dead_letter env config msg "" (fail_delivery env config msg tr tr),
    dispositions-fail_delivery env config msg tr tr,
  )
  dispositions-deliver tr (ok body) = dispositions-settle env config msg tr _ _ _

  -- The disposition of a message.
  abbrev pub disposed : Trace → Disposition
  disposed tr = elim (str_eq msg.contract_error "") [
    | false ↦ dead msg.transport_id
    | true ↦ elim (str_eq msg.envelope.message_type config.message_type) [
      | false ↦ dead msg.transport_id
      | true ↦ delivered tr (env.payload msg.envelope)
    ]
  ]

  pub dispositions-process :
      (tr : Trace) → dispositions (process env config msg tr) ≡ disposed tr ∷ dispositions tr
  unfolding process
  dispositions-process tr =
      let failed = fail_delivery env config msg tr tr in
      ground (
        arith,
        dispositions-deliver tr (env.payload msg.envelope),
        dispositions-dead_letter env config msg "PGMQ contract-invalid archive failed" failed,
        dispositions-fail_delivery env config msg tr tr,
      )

  message_of-delivered :
      (tr : Trace) (payload : Result (List ℕ))
      → message_of (delivered tr payload) ≡ msg.transport_id
  message_of-delivered tr (err e) = refl
  message_of-delivered tr (ok body) = ground arith

  pub message_of-disposed : (tr : Trace) → message_of (disposed tr) ≡ msg.transport_id
  message_of-disposed tr = ground (arith, message_of-delivered tr (env.payload msg.envelope))

  done_needs_answer :
      (tr : Trace) (payload : Result (List ℕ))
      → delivered tr payload ≡ done msg.transport_id
      → (body : List ℕ) × (payload ≡ ok body)
        × ((is_none (env.handler tr body) || is_terminal_result (env.handler tr body)) ≡ true)
        × (env.parent_done (handled body (env.handler tr body) ∷ tr) ≡ false)
  done_needs_answer tr (err e) h = cc
  done_needs_answer tr (ok body) h = (body, refl, ground arith, ground arith)

-- Every message that is processed is disposed of exactly once, whatever the handler and the queue
-- answer: the trace gains one completion, retry or dead letter, and it is this message's.
pub process_disposes_once :
    (env : Env) (config : QueueConfig) (msg : Message) (tr : Trace)
    → (d : Disposition) × (dispositions (process env config msg tr) ≡ d ∷ dispositions tr)
      × (message_of d ≡ msg.transport_id)
process_disposes_once env config msg tr = (
  disposed env config msg tr,
  dispositions-process env config msg tr,
  message_of-disposed env config msg tr,
)

pub head_eq : {A : Type 0} {x y : A} {xs ys : List A} → x ∷ xs ≡ y ∷ ys → x ≡ y
head_eq h = cc

-- A message is completed only if the queue and the configuration vouch for it, its payload was
-- read, and the handler returned no error or a terminal one while the parent context was live.
pub process_completes_only :
    (env : Env) (config : QueueConfig) (msg : Message) (tr : Trace)
    → dispositions (process env config msg tr) ≡ done msg.transport_id ∷ dispositions tr
    → IsAccepted config msg
      × ((body : List ℕ) × (env.payload msg.envelope ≡ ok body)
          × ((is_none (env.handler tr body) || is_terminal_result (env.handler tr body)) ≡ true)
          × (env.parent_done (handled body (env.handler tr body) ∷ tr) ≡ false))
process_completes_only env config msg tr h =
    let d = head_eq (sym (dispositions-process env config msg tr) ∙ h) in
    (
      (
        ground (arith, d, eq_iff msg.contract_error ""),
        ground (arith, d, eq_iff msg.envelope.message_type config.message_type),
      ),
      done_needs_answer env config msg tr (env.payload msg.envelope) (ground (arith, d)),
    )
