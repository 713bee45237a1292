-- ===== src/Mq/Consumer/Backoff.antt =====
-- The delay of a retry (internal/mq/consumer.go), in 64-bit arithmetic.
use geul_asset_optimizer.Base.{
  Bool, ◌&&◌, ℕ, zero, suc, ◌-◌, ◌*◌, ◌^◌, ◌≤◌, ◌<◌, ◌≡◌, refl, ◌∙◌, ap, arith, true,
}
use Prim.Native.Nat.{min}
use geul_asset_optimizer.Base.Int.{eq_ℤ, leb_ℤ, ℤ, pos, wrap64}
use geul_asset_optimizer.Jobs.{second}
use geul_asset_optimizer.Mq.Consumer.{shift_one, times, cap, retry_delay}

eq_ℤ_sound : (a b : ℤ) → eq_ℤ a b ≡ true → a ≡ b
eq_ℤ_sound a b h = ground arith

-- A test of the first `count` delivery numbers.
tested_up_to : (ℕ → Bool) → ℕ → Bool
tested_up_to test zero = true
tested_up_to test (suc count) = tested_up_to test count && test count

tested_up_to-at :
    (test : ℕ → Bool) (count k : ℕ) → k < count → tested_up_to test count ≡ true → test k ≡ true
unfolding tested_up_to
tested_up_to-at test zero k below passed = absurd (omega arith)
tested_up_to-at test (suc count) k below passed = ground (arith, tested_up_to-at test count k)

-- The doubling backoff, with no bound on the arithmetic.
abbrev pub ideal_delay : ℕ → ℤ
ideal_delay k = pos (second * min 60 (5 * 2 ^ k))

delay_table : tested_up_to (λ k. eq_ℤ (retry_delay (pos (suc k))) (ideal_delay k)) 61 ≡ true
unfolding tested_up_to retry_delay shift_one times cap wrap64
delay_table = refl

-- The backoff of the (k + 1)-th delivery is five seconds doubled k times, and a minute at most. Up
-- to the 61st delivery no step of the 64-bit computation wraps around.
pub retry_delay_exact : (k : ℕ) → k ≤ 60 → retry_delay (pos (suc k)) ≡ ideal_delay k
retry_delay_exact k h = eq_ℤ_sound _ _ (tested_up_to-at _ 61 k (omega arith) delay_table)

delay_order :
    tested_up_to (λ k. leb_ℤ (retry_delay (pos (suc k))) (retry_delay (pos (suc (suc k))))) 60
    ≡ true
unfolding tested_up_to retry_delay shift_one times cap wrap64
delay_order = refl

-- Within that range the backoff never shrinks from one delivery to the next.
pub retry_delay_mono :
    (k : ℕ) → k < 60 → leb_ℤ (retry_delay (pos (suc k))) (retry_delay (pos (suc (suc k)))) ≡ true
retry_delay_mono k h = tested_up_to-at _ 60 k h delay_order

shift_lost : (k : ℕ) → 64 ≤ k → shift_one k ≡ pos 0
unfolding shift_one
shift_lost k h = ground arith

no_delay : times second (cap (times 5 (pos 0))) ≡ pos 0
unfolding times cap wrap64
no_delay = refl

-- From the 65th delivery on the shift has lost every bit, and the delay is zero instead of a minute.
pub retry_delay_lost : (k : ℕ) → 64 ≤ k → retry_delay (pos (suc k)) ≡ pos 0
unfolding retry_delay
retry_delay_lost k h =
    ap (λ (bit : ℤ). times second (cap (times 5 bit))) (shift_lost (suc k - 1) (omega arith))
    ∙ no_delay
