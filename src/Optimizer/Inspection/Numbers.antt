-- ===== src/Optimizer/Inspection/Numbers.antt =====
-- `strconv.ParseInt(value, 10, 64)`, and what internal/optimizer/inspect.go makes of its error.
pub mod RoundTrip
use Prim.Native.Char.{code}
use geul_asset_optimizer.Base.{
  ℕ, zero, suc, ◌+◌, ◌-◌, ◌*◌, ◌^◌, String, true, ◌&&◌, Option, none, some, ◌==◌, leb, ltb,
  if◌then◌else◌, ◌≡◌, arith,
}
use geul_asset_optimizer.Base.Int.{ℤ, pos, negsuc, IsInt64}
use geul_asset_optimizer.Base.Text.{trim_space}

unfoldable pub parse_digits : ℕ → String → Option ℕ
parse_digits acc String.[] = some acc
parse_digits acc (String.◌∷◌ c s) =
    let rest = parse_digits (acc * 10 + (code c - 48)) s in
    if leb b'0' (code c) && leb (code c) b'9' then rest else none

-- At least one digit.
unfoldable pub parse_uint : String → Option ℕ
unfolding parse_digits
parse_uint String.[] = none
parse_uint (String.◌∷◌ c s) = parse_digits 0 (String.◌∷◌ c s)

abbrev negate : ℕ → ℤ
negate zero = pos 0
negate (suc n) = negsuc n

abbrev pub positive : Option ℕ → Option ℤ
positive none = none
positive (some n) = if ltb n (2 ^ 63) then some (pos n) else none

abbrev negative : Option ℕ → Option ℤ
negative none = none
negative (some n) = if leb n (2 ^ 63) then some (negate n) else none

unfoldable pub parse_int : String → Option ℤ
unfolding parse_uint
parse_int String.[] = none
parse_int (String.◌∷◌ c s) =
    if code c == b'-'
    then negative (parse_uint s)
    else if code c == b'+'
    then positive (parse_uint s)
    else positive (parse_uint (String.◌∷◌ c s))

abbrev pub or_zero : Option ℤ → ℤ
or_zero none = pos 0
or_zero (some n) = n

-- The number in a text, and zero where there is none.
unfoldable pub parse_size_bytes : String → ℤ
unfolding trim_space parse_int
parse_size_bytes value = or_zero (parse_int (trim_space value))

negate-IsInt64 : (n : ℕ) → leb n (2 ^ 63) ≡ true → IsInt64 (negate n)
negate-IsInt64 zero h = omega arith
negate-IsInt64 (suc n) h = ground arith

or_zero-positive : (o : Option ℕ) → IsInt64 (or_zero (positive o))
or_zero-positive none = omega arith
or_zero-positive (some n) = ground arith

or_zero-negative : (o : Option ℕ) → IsInt64 (or_zero (negative o))
or_zero-negative none = omega arith
or_zero-negative (some n) = ground (arith, negate-IsInt64 n)
