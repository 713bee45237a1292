-- ===== src/Optimizer/Options/Decimal.antt =====
-- Decimal printing of numbers, and of a signed number of hundredths with two decimals
-- (`strconv.FormatFloat` with format 'f' and precision 2 at internal/optimizer/options.go).
use geul_asset_optimizer.Base.{ℕ, zero, suc, ◌/◌, ◌%◌, String, ◌<>◌, ◌≡◌, refl, ltb, if◌then◌else◌}
use geul_asset_optimizer.Base.Int.{ℤ, pos, negsuc}

abbrev pub digit : ℕ → String
digit zero = "0"
digit (suc zero) = "1"
digit (suc (suc zero)) = "2"
digit (suc (suc (suc zero))) = "3"
digit (suc (suc (suc (suc zero)))) = "4"
digit (suc (suc (suc (suc (suc zero))))) = "5"
digit (suc (suc (suc (suc (suc (suc zero)))))) = "6"
digit (suc (suc (suc (suc (suc (suc (suc zero))))))) = "7"
digit (suc (suc (suc (suc (suc (suc (suc (suc zero)))))))) = "8"
digit _ = "9"

-- Decimal digits of a number; a number has at most as many digits as `suc` of it says, so that
-- fuel is enough.
unfoldable pub print_digits : ℕ → ℕ → String
print_digits zero n = ""
print_digits (suc fuel) n =
    let rest = print_digits fuel (n / 10) in if ltb n 10 then digit n else rest <> digit (n % 10)

unfoldable pub print_nat : ℕ → String
unfolding print_digits
print_nat n = print_digits (suc n) n

abbrev pub print_ℤ : ℤ → String
print_ℤ (pos n) = print_nat n
print_ℤ (negsuc n) = "-" <> print_nat (suc n)

print_magnitude : ℕ → String
unfolding print_nat
print_magnitude n = print_nat (n / 100) <> "." <> digit (n % 100 / 10) <> digit (n % 10)

unfoldable pub print_hundredths : ℤ → String
unfolding print_magnitude
print_hundredths (pos n) = print_magnitude n
print_hundredths (negsuc n) = "-" <> print_magnitude (suc n)

print_hundredths_test : print_hundredths (pos 7) ≡ "0.07"
unfolding print_hundredths
print_hundredths_test = refl
