-- ===== src/Optimizer/Inspection/Numbers/RoundTrip.antt =====
-- That a number is read back from its decimal digits.
use Prim.Native.Char.{Char, code}
use text.Mathlib.TextLemmas.{nil-append, cons-append}
use geul_asset_optimizer.Base.{
  ◌-◌, ℕ, zero, suc, ◌+◌, ◌*◌, ◌/◌, ◌%◌, ◌^◌, ◌<◌, ◌≡◌, refl, String, ◌<>◌, true, false, some, ltb,
  arith, ◌&&◌, leb, Bool-cases, inl, inr,
}
use geul_asset_optimizer.Base.Int.{pos}
use geul_asset_optimizer.Base.Text.{is_space, is_empty, trim_space, trim_left_func, trim_right_func}
use geul_asset_optimizer.Optimizer.Options.Decimal.{digit, print_digits, print_nat}
use geul_asset_optimizer.Optimizer.Inspection.Numbers.{
  parse_digits, parse_uint, parse_int, parse_size_bytes,
}

read_digit : (acc d : ℕ) → d < 10 → parse_digits acc (digit d) ≡ some (acc * 10 + d)
unfolding parse_digits
read_digit acc zero h = refl
read_digit acc (suc zero) h = refl
read_digit acc (suc (suc zero)) h = refl
read_digit acc (suc (suc (suc zero))) h = refl
read_digit acc (suc (suc (suc (suc zero)))) h = refl
read_digit acc (suc (suc (suc (suc (suc zero))))) h = refl
read_digit acc (suc (suc (suc (suc (suc (suc zero)))))) h = refl
read_digit acc (suc (suc (suc (suc (suc (suc (suc zero))))))) h = refl
read_digit acc (suc (suc (suc (suc (suc (suc (suc (suc zero)))))))) h = refl
read_digit acc (suc (suc (suc (suc (suc (suc (suc (suc (suc zero))))))))) h = refl
read_digit acc (suc (suc (suc (suc (suc (suc (suc (suc (suc (suc d)))))))))) h =
    absurd (omega (arith, h))

read_last :
    (acc : ℕ) (s : String) (a d : ℕ)
    → d < 10
    → parse_digits acc s ≡ some a
    → parse_digits acc (s <> digit d) ≡ some (a * 10 + d)
unfolding parse_digits
read_last acc String.[] a d lt h = rw (nil-append (digit d)) (ground (arith, read_digit acc d lt))
read_last acc (String.◌∷◌ c s) a d lt h =
    rw (cons-append c s (digit d)) (ground (arith, read_last (acc * 10 + (code c - 48)) s a d lt))

read_digits : (fuel n : ℕ) → n < fuel → parse_digits 0 (print_digits fuel n) ≡ some n
unfolding print_digits
read_digits zero n h = elim h [ ]
read_digits (suc fuel) n h = elim (Bool-cases (ltb n 10)) [
  | inl small ↦ rw (small, print_digits) (ground (arith, read_digit 0 n (ground arith)))
  | inr large ↦
      rw (large, print_digits)
        (ground (
          arith,
          read_last 0 (print_digits fuel (n / 10)) (n / 10) (n % 10) (omega arith)
              (read_digits fuel (n / 10) (ground arith)),
        ))
]

-- A text that begins with a digit, and all of whose characters are digits.
trim_right_digits :
    (acc a : ℕ) (s : String) → parse_digits acc s ≡ some a → trim_right_func is_space s ≡ s
unfolding parse_digits trim_right_func is_space
trim_right_digits acc a String.[] h = refl
trim_right_digits acc a (String.◌∷◌ c s) h =
    ground (arith, trim_right_digits (acc * 10 + (code c - 48)) a s)

leading_digit :
    (acc a : ℕ) (c : Char) (s : String)
    → parse_digits acc (String.◌∷◌ c s) ≡ some a
    → (leb b'0' (code c) && leb (code c) b'9') ≡ true
unfolding parse_digits
leading_digit acc a c s h = ground arith

digit_not_space : (n : ℕ) → (leb b'0' n && leb n b'9') ≡ true → is_space n ≡ false
unfolding is_space
digit_not_space n h = ground arith

trim_digits : (n : ℕ) (s : String) → parse_digits 0 s ≡ some n → trim_space s ≡ s
unfolding trim_space trim_left_func
trim_digits n String.[] h = refl
trim_digits n (String.◌∷◌ c s) h =
    rw (digit_not_space (code c) (leading_digit 0 n c s h), trim_left_func)
      (trim_right_digits 0 n (String.◌∷◌ c s) h)

parse_int_digits :
    (n : ℕ) (s : String)
    → is_empty s ≡ false
    → parse_digits 0 s ≡ some n
    → n < 2 ^ 63
    → parse_int s ≡ some (pos n)
unfolding parse_int parse_uint
parse_int_digits n String.[] filled h lt = cc
parse_int_digits n (String.◌∷◌ c s) filled h lt = ground (arith, leading_digit 0 n c s h, h)

read_number :
    (n : ℕ) (s : String)
    → is_empty s ≡ false
    → parse_digits 0 s ≡ some n
    → n < 2 ^ 63
    → parse_size_bytes s ≡ pos n
unfolding parse_size_bytes
read_number n s filled h lt = rw (trim_digits n s h) (rw (parse_int_digits n s filled h lt) refl)

append_filled : (s t : String) → is_empty t ≡ false → is_empty (s <> t) ≡ false
append_filled String.[] t h = rw (nil-append t) h
append_filled (String.◌∷◌ c s) t h = rw (cons-append c s t) refl

digit_filled : (d : ℕ) → is_empty (digit d) ≡ false
digit_filled zero = refl
digit_filled (suc zero) = refl
digit_filled (suc (suc zero)) = refl
digit_filled (suc (suc (suc zero))) = refl
digit_filled (suc (suc (suc (suc zero)))) = refl
digit_filled (suc (suc (suc (suc (suc zero))))) = refl
digit_filled (suc (suc (suc (suc (suc (suc zero)))))) = refl
digit_filled (suc (suc (suc (suc (suc (suc (suc zero))))))) = refl
digit_filled (suc (suc (suc (suc (suc (suc (suc (suc zero)))))))) = refl
digit_filled (suc (suc (suc (suc (suc (suc (suc (suc (suc zero))))))))) = refl
digit_filled (suc (suc (suc (suc (suc (suc (suc (suc (suc (suc d)))))))))) = refl

print_digits_filled : (fuel n : ℕ) → is_empty (print_digits (suc fuel) n) ≡ false
unfolding print_digits
print_digits_filled fuel n = elim (Bool-cases (ltb n 10)) [
  | inl small ↦ rw (small, print_digits) (digit_filled n)
  | inr large ↦
      rw (large, print_digits)
        (append_filled (print_digits fuel (n / 10)) _ (digit_filled (n % 10)))
]

-- A number below 2^63 is read back from its decimal digits.
pub parse_size_bytes-print_nat : (n : ℕ) → n < 2 ^ 63 → parse_size_bytes (print_nat n) ≡ pos n
unfolding print_nat
parse_size_bytes-print_nat n lt =
    read_number n (print_digits (suc n) n) (print_digits_filled n n)
      (read_digits (suc n) n (omega arith)) lt
