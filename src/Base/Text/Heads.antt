-- ===== src/Base/Text/Heads.antt =====
-- Texts told apart by their first characters.
use Prim.Native.Char.{Char, code}
use Prim.Native.Nat.{ℕ}
use Prim.Native.String.{String}
use text.Mathlib.Text.{◌==◌ as str_eq, starts_with}
use text.Mathlib.TextEquality.{eq_iff, starts_with_iff}
use text.Mathlib.TextLemmas.{cons-append}
use mathlib.Core.Path.{◌≡◌, sym, ap, ◌∙◌}
use mathlib.Core.Logic.{◌≢◌, inl, inr}
use mathlib.Core.Bool.{false}
use geul_asset_optimizer.Base.Tests.{Bool-cases}

-- The code of the first character.
abbrev pub first : String → ℕ
first String.[] = 0
first (String.◌∷◌ c s) = code c

pub str_eq-first : (s t : String) → first s ≢ first t → str_eq s t ≡ false
str_eq-first s t h = elim (Bool-cases (str_eq s t)) [
  | inl same ↦ absurd (h (ap first ((eq_iff s t).0 same)))
  | inr other ↦ other
]

pub starts_with-first :
    (s : String) (c : Char) (t : String) → first s ≢ code c → starts_with s (String.◌∷◌ c t) ≡ false
starts_with-first s c t h = elim (Bool-cases (starts_with s (String.◌∷◌ c t))) [
  | inl begins ↦
      let (rest, whole) = (starts_with_iff s (String.◌∷◌ c t)).0 begins in
      absurd (h (sym (ap first whole) ∙ ap first (cons-append c t rest)))
  | inr other ↦ other
]
