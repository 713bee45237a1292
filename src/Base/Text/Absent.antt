-- ===== src/Base/Text/Absent.antt =====
-- Texts in which a character does not occur, and what keeps it out.
use Prim.Native.Nat.{ℕ}
use Prim.Native.String.{String, ◌++◌ as ◌<>◌}
use text.Mathlib.TextLemmas.{nil-append, cons-append}
use mathlib.Core.Path.{◌≡◌, refl}
use mathlib.Core.Bool.{Bool, false}
use native.Mathlib.Omega.{arith}
use geul_asset_optimizer.Base.Tests.{◌==◌}
use geul_asset_optimizer.Base.Text.{contains_char, trim_left_func, trim_right_func, trim_char}

-- A text without the character `d`.
abbrev pub Lacks : ℕ → String → Type 0
Lacks d s = contains_char d s ≡ false

pub Lacks-append : (d : ℕ) (s t : String) → Lacks d s → Lacks d t → Lacks d (s <> t)
unfolding contains_char
Lacks-append d String.[] t hs ht = rw (nil-append t) ht
Lacks-append d (String.◌∷◌ c s) t hs ht =
    rw (cons-append c s t) (ground (arith, Lacks-append d s t))

Lacks-trim_left_func :
    (p : ℕ → Bool) (d : ℕ) (s : String) → Lacks d s → Lacks d (trim_left_func p s)
unfolding contains_char trim_left_func
Lacks-trim_left_func p d String.[] h = refl
Lacks-trim_left_func p d (String.◌∷◌ c s) h = ground (arith, Lacks-trim_left_func p d s)

Lacks-trim_right_func :
    (p : ℕ → Bool) (d : ℕ) (s : String) → Lacks d s → Lacks d (trim_right_func p s)
unfolding contains_char trim_right_func
Lacks-trim_right_func p d String.[] h = refl
Lacks-trim_right_func p d (String.◌∷◌ c s) h = ground (arith, Lacks-trim_right_func p d s)

pub Lacks-trim_char : (trimmed d : ℕ) (s : String) → Lacks d s → Lacks d (trim_char trimmed s)
unfolding trim_char
Lacks-trim_char trimmed d s h =
    Lacks-trim_right_func (λ c. c == trimmed) d (trim_left_func (λ c. c == trimmed) s)
      (Lacks-trim_left_func (λ c. c == trimmed) d s h)
