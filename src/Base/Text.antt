-- ===== src/Base/Text.antt =====
-- Go's `strings` functions, over texts of Unicode characters.
pub mod Absent
pub mod Parts
pub mod Heads
pub mod Marked
pub mod Trim
use Prim.Native.Char.{Char, code}
use Prim.Native.String.{String, ◌++◌ as ◌<>◌}
use Prim.Native.Nat.{ℕ}
use mathlib.Core.Path.{◌≡◌, refl}
use mathlib.Core.Bool.{Bool, true, false, ◌&&◌, ◌||◌}
use mathlib.Core.List.{List, [], ◌∷◌}
use geul_asset_optimizer.Base.Tests.{leb, ◌==◌, if◌then◌else◌}

-- `unicode.IsSpace`
unfoldable pub is_space : ℕ → Bool
is_space c =
    leb 9 c && leb c 13
    || c == 0x20
    || c == 0x85
    || c == 0xa0
    || c == 0x1680
    || leb 0x2000 c && leb c 0x200a
    || c == 0x2028
    || c == 0x2029
    || c == 0x202f
    || c == 0x205f
    || c == 0x3000

abbrev pub is_empty : String → Bool
is_empty String.[] = true
is_empty (String.◌∷◌ c s) = false

module _ (p : ℕ → Bool) where
  unfoldable pub trim_left_func : String → String
  trim_left_func String.[] = ""
  trim_left_func (String.◌∷◌ c s) =
      let rest = trim_left_func s in if p (code c) then rest else String.◌∷◌ c s

  unfoldable pub trim_right_func : String → String
  trim_right_func String.[] = ""
  trim_right_func (String.◌∷◌ c s) =
      let rest = trim_right_func s in if is_empty rest && p (code c) then "" else String.◌∷◌ c rest

-- `strings.TrimSpace`
unfoldable pub trim_space : String → String
unfolding trim_left_func trim_right_func is_space
trim_space s = trim_right_func is_space (trim_left_func is_space s)

-- `strings.Trim(s, "-")`, for one character.
unfoldable pub trim_char : ℕ → String → String
unfolding trim_left_func trim_right_func
trim_char d s = trim_right_func (λ c. c == d) (trim_left_func (λ c. c == d) s)

-- `strings.Contains(s, c)`, for one character.
unfoldable pub contains_char : ℕ → String → Bool
contains_char d String.[] = false
contains_char d (String.◌∷◌ c s) = let rest = contains_char d s in code c == d || rest

abbrev cons_head : Char → List String → List String
cons_head c [] = String.◌∷◌ c "" ∷ []
cons_head c (part ∷ parts) = String.◌∷◌ c part ∷ parts

-- `strings.Split(s, sep)`, for a separator of one character.
unfoldable pub split : ℕ → String → List String
split sep String.[] = "" ∷ []
split sep (String.◌∷◌ c s) =
    let rest = split sep s in if code c == sep then "" ∷ rest else cons_head c rest

-- `strings.Join(parts, sep)`
unfoldable pub join : List String → String → String
join [] sep = ""
join (part ∷ []) sep = part
join (part ∷ other ∷ parts) sep = part <> sep <> join (other ∷ parts) sep

trim_space_test : trim_space "  a b\n" ≡ "a b"
unfolding trim_space
trim_space_test = refl

split_test : split b',' "a,,b" ≡ "a" ∷ "" ∷ "b" ∷ []
unfolding split
split_test = refl
