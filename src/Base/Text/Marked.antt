-- ===== src/Base/Text/Marked.antt =====
-- A mark behind a prefix that does not have it.
use Prim.Native.Char.{Char, code}
use Prim.Native.Nat.{ℕ}
use Prim.Native.String.{String, ◌++◌ as ◌<>◌}
use text.Mathlib.TextLemmas.{nil-append, cons-append}
use mathlib.Core.Path.{◌≡◌, refl, sym, ap, ◌∙◌}
use native.Mathlib.Omega.{arith}
use geul_asset_optimizer.Base.Text.{contains_char}
use geul_asset_optimizer.Base.Text.Absent.{Lacks}
use geul_asset_optimizer.Base.Text.Heads.{first}

abbrev tail : String → String
tail String.[] = ""
tail (String.◌∷◌ c s) = s

abbrev first_char : Char → String → Char
first_char d String.[] = d
first_char d (String.◌∷◌ c s) = c

not_first :
    (mark c : Char) (p : String) → Lacks (code mark) (String.◌∷◌ c p) → code c ≡ code mark → ⊥
unfolding contains_char
not_first mark c p h e = ground (arith, h, e)

-- The mark lies behind the prefix.
pub behind_prefix :
    (mark : Char) (p x before after : String)
    → Lacks (code mark) p
    → p <> x ≡ before <> String.◌∷◌ mark after
    → (more : String) × (before ≡ p <> more) × (x ≡ more <> String.◌∷◌ mark after)
unfolding contains_char
behind_prefix mark String.[] x before after h e =
    (before, sym (nil-append before), sym (nil-append x) ∙ e)
behind_prefix mark (String.◌∷◌ c p) x String.[] after h e = absurd (
    not_first mark c p h
      (ap first (sym (cons-append c p x) ∙ e ∙ nil-append (String.◌∷◌ mark after))))
behind_prefix mark (String.◌∷◌ c p) x (String.◌∷◌ d before) after h e =
    let e' = sym (cons-append c p x) ∙ e ∙ cons-append d before (String.◌∷◌ mark after) in
    let (more, begins, ends) =
      behind_prefix mark p x before after (ground (arith, h)) (ap tail e') in
    (
      more,
      ap (λ (k : Char). String.◌∷◌ k before) (sym (ap (first_char mark) e'))
          ∙ ap (λ (s : String). String.◌∷◌ c s) begins
          ∙ sym (cons-append c p more),
      ends,
    )

pub Lacks-parts : (d : ℕ) (s t : String) → Lacks d (s <> t) → Lacks d s × Lacks d t
unfolding contains_char
Lacks-parts d String.[] t h = (refl, rw (sym (nil-append t)) h)
Lacks-parts d (String.◌∷◌ c s) t h =
    let h' = ap (contains_char d) (sym (cons-append c s t)) ∙ h in
    ground (arith, h', Lacks-parts d s t)
