-- ===== src/Mq/Consumer/Retries.antt =====
-- When a message is given back to the queue, and with which delay.
use geul_asset_optimizer.Base.{
  subst, sym, ℕ, suc, ◌≤◌, ◌≡◌, ◌↔◌, refl, ◌∙◌, ap, Bool, true, false, Option, none, some, List,
  ◌∷◌, arith, ◌⊎◌, inl, inr, eq_iff, ◌&&◌, if◌then◌else◌,
}
use geul_asset_optimizer.Base.Int.{ℤ, pos, leb_ℤ}
use geul_asset_optimizer.Errors.{Error, Result, ok, err, is_terminal_result, is_retryable}
use geul_asset_optimizer.Jobs.{QueueConfig}
use geul_asset_optimizer.Mq.World.{Message, handled, Trace, Env}
use geul_asset_optimizer.Mq.Consumer.{retry_delay, process}
use geul_asset_optimizer.Mq.Consumer.Dispositions.{Disposition, again, dispositions, verdict}
use geul_asset_optimizer.Mq.Consumer.Policy.{
  IsAccepted, delivered, disposed, dispositions-process, head_eq,
}
use geul_asset_optimizer.Mq.Consumer.Backoff.{ideal_delay, retry_delay_exact}

module _ (env : Env) (config : QueueConfig) (msg : Message) where
  -- Why a delivery that reached its handler goes back: the context had ended, which asks for no delay; or
  -- the handler failed in a way that may be tried again, within the limit.
  abbrev pub GoesBack : ℤ → ℤ → Option Error → Bool → Type 0
  GoesBack backoff delay answer ended =
      ((ended ≡ true) × (delay ≡ pos 0))
      ⊎ ((ended ≡ false)
          × ((e : Error) × (answer ≡ some e)
              × (is_terminal_result (some e) ≡ false)
              × (is_retryable (some e) ≡ true)
              × (leb_ℤ msg.read_count config.retry_limit ≡ true)
              × (delay ≡ backoff)))

  chosen :
      (terminal retryable within : Bool) (backoff delay : ℤ)
      → (if terminal
          then Disposition.done msg.transport_id
          else if retryable && within
          then again msg.transport_id backoff
          else Disposition.dead msg.transport_id)
        ≡ again msg.transport_id delay
      → (terminal ≡ false) × (retryable ≡ true) × (within ≡ true) × (delay ≡ backoff)
  chosen true retryable within backoff delay h = cc
  chosen false true true backoff delay h = (refl, refl, refl, cc)
  chosen false true false backoff delay h = cc
  chosen false false within backoff delay h = cc

  verdict-again :
      (answer : Option Error) (ended : Bool) (delay : ℤ)
      → verdict env config msg answer ended ≡ again msg.transport_id delay
      → GoesBack (retry_delay msg.read_count) delay answer ended
  verdict-again none true delay h = inl (refl, cc h)
  verdict-again none false delay h = cc
  verdict-again (some e) true delay h = inl (refl, cc h)
  verdict-again (some e) false delay h =
      let (lasting, retryable, within, wait) =
        chosen (is_terminal_result (some e)) (is_retryable (some e))
          (leb_ℤ msg.read_count config.retry_limit) (retry_delay msg.read_count) delay h in
      inr (refl, (e, refl, lasting, retryable, within, wait))

  again-verdict :
      (answer : Option Error) (ended : Bool) (delay : ℤ)
      → GoesBack (retry_delay msg.read_count) delay answer ended
      → verdict env config msg answer ended ≡ again msg.transport_id delay
  again-verdict answer ended delay (inl (over, no_delay)) = rw (over, no_delay) refl
  again-verdict answer ended delay (inr (live, (e, answered, lasting, retryable, within, wait))) =
      rw (live, answered, lasting, retryable, within, wait) refl

  -- The payload was read, and its delivery goes back.
  abbrev pub ReadAgain : ℤ → ℤ → Trace → Type 0
  ReadAgain backoff delay tr =
      (body : List ℕ) × (env.payload msg.envelope ≡ ok body)
      × GoesBack backoff delay (env.handler tr body)
          (env.parent_done (handled body (env.handler tr body) ∷ tr))

  delivered-again :
      (tr : Trace) (payload : Result (List ℕ)) (delay : ℤ)
      → env.payload msg.envelope ≡ payload
      → delivered env config msg tr payload ≡ again msg.transport_id delay
      → ReadAgain (retry_delay msg.read_count) delay tr
  delivered-again tr (err e) delay read h = cc
  delivered-again tr (ok body) delay read h = (body, read, verdict-again _ _ delay h)

  goes_back_only :
      (delay : ℤ) (tr : Trace)
      → disposed env config msg tr ≡ again msg.transport_id delay
      → IsAccepted config msg × ReadAgain (retry_delay msg.read_count) delay tr
  goes_back_only delay tr d = (
    (
      ground (arith, d, eq_iff msg.contract_error ""),
      ground (arith, d, eq_iff msg.envelope.message_type config.message_type),
    ),
    delivered-again tr (env.payload msg.envelope) delay refl (ground (arith, d)),
  )

  goes_back :
      (delay : ℤ) (tr : Trace)
      → IsAccepted config msg
      → ReadAgain (retry_delay msg.read_count) delay tr
      → disposed env config msg tr ≡ again msg.transport_id delay
  goes_back delay tr (c, t) (body, read, why) =
      let answered = again-verdict _ _ delay why in
      ground (
        arith,
        read,
        answered,
        c,
        t,
        eq_iff msg.contract_error "",
        eq_iff msg.envelope.message_type config.message_type,
      )

  -- A message goes back to the queue, with some delay, exactly when the queue and the configuration vouch
  -- for it, its payload was read, and one of two things holds: the context had ended when the handler
  -- returned, and the delay is zero; or it was live, the handler returned a retryable, non-terminal
  -- error, the read count is within the retry limit, and the delay is five seconds doubled with every
  -- read before this one, and a minute at most. The read count is from 1 to 61.
  pub process_retries_iff :
      (tr : Trace) (delay : ℤ) (earlier : ℕ)
      → msg.read_count ≡ pos (suc earlier)
      → earlier ≤ 60
      → (dispositions (process env config msg tr) ≡ again msg.transport_id delay ∷ dispositions tr)
        ↔ (IsAccepted config msg × ReadAgain (ideal_delay earlier) delay tr)
  process_retries_iff tr delay earlier count few =
      let backoff : retry_delay msg.read_count ≡ ideal_delay earlier =
        ap retry_delay count ∙ retry_delay_exact earlier few in
      (
        λ h.
            let (accepted, back) =
              goes_back_only delay tr
                (head_eq (sym (dispositions-process env config msg tr) ∙ h)) in
            (accepted, subst (λ (wait : ℤ). ReadAgain wait delay tr) backoff back),
        λ (accepted, back).
            dispositions-process env config msg tr
            ∙ ap (λ (d : Disposition). d ∷ dispositions tr)
                (goes_back delay tr accepted
                  (subst (λ (wait : ℤ). ReadAgain wait delay tr) (sym backoff) back)),
      )
