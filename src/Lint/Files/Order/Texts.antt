-- ===== src/Lint/Files/Order/Texts.antt =====
-- The order of texts that scripts/ci/no-nested-if.go sorts paths by.
use Prim.Native.Char.{Char, code}
use Prim.Native.String.{String as Text}
use text.Mathlib.TextEquality.{Char-path}
use text.Mathlib.TextLemmas.{nil-append, cons-append}
use mathlib.Core.Bool.{true≢false}
use geul_asset_optimizer.Base.{
  subst, ℕ, String, ◌<>◌, true, false, ◌≡◌, refl, sym, ap, ◌∙◌, ◌<◌, ◌⊎◌, inl, inr, arith,
}
use geul_asset_optimizer.Lint.Files.{text_before}

-- `s` is a beginning of `t`, or has the smaller character where they first differ.
pub data Precedes (s t : String) : Type 0 where
  begins : (d : Char) (rest : String) → t ≡ s <> Text.◌∷◌ d rest → Precedes s t
  differs :
      (common front back : String) (c d : Char)
      → s ≡ common <> Text.◌∷◌ c front
      → t ≡ common <> Text.◌∷◌ d back
      → code c < code d
      → Precedes s t

extended :
    (e : Char) (s common rest : String)
    → s ≡ common <> rest
    → Text.◌∷◌ e s ≡ Text.◌∷◌ e common <> rest
extended e s common rest h = ap (λ (x : String). Text.◌∷◌ e x) h ∙ sym (cons-append e common rest)

Precedes-cons : (e : Char) (s t : String) → Precedes s t → Precedes (Text.◌∷◌ e s) (Text.◌∷◌ e t)
Precedes-cons e s t (begins d rest h) = begins d rest (extended e t s _ h)
Precedes-cons e s t (differs common front back c d hs ht less) =
    differs (Text.◌∷◌ e common) front back c d (extended e s common _ hs) (extended e t common _ ht)
      less

-- How two texts compare: equal, or one before the other.
pub data Compared (s t : String) : Type 0 where
  same_text : s ≡ t → text_before s t ≡ false → text_before t s ≡ false → Compared s t
  is_before : Precedes s t → text_before s t ≡ true → text_before t s ≡ false → Compared s t
  is_behind : Precedes t s → text_before s t ≡ false → text_before t s ≡ true → Compared s t

smaller_head :
    (c d : Char) (s t : String)
    → code c < code d
    → Precedes (Text.◌∷◌ c s) (Text.◌∷◌ d t)
      × (text_before (Text.◌∷◌ c s) (Text.◌∷◌ d t) ≡ true)
      × (text_before (Text.◌∷◌ d t) (Text.◌∷◌ c s) ≡ false)
unfolding text_before
smaller_head c d s t h = (
  differs "" s t c d (sym (nil-append _)) (sym (nil-append _)) h,
  ground (arith, h),
  ground (arith, h),
)

same_head : (c : Char) (s t : String) → Compared s t → Compared (Text.◌∷◌ c s) (Text.◌∷◌ c t)
unfolding text_before
same_head c s t (same_text h a b) =
    same_text (ap (λ (x : String). Text.◌∷◌ c x) h) (ground (arith, a)) (ground (arith, b))
same_head c s t (is_before h a b) =
    is_before (Precedes-cons c s t h) (ground (arith, a)) (ground (arith, b))
same_head c s t (is_behind h a b) =
    is_behind (Precedes-cons c t s h) (ground (arith, a)) (ground (arith, b))

trichotomy : (a b : ℕ) → (a < b) ⊎ ((a ≡ b) ⊎ (b < a))
trichotomy a b = ground arith

pub compared : (s t : String) → Compared s t
unfolding text_before
compared Text.[] Text.[] = same_text refl refl refl
compared Text.[] (Text.◌∷◌ d t) = is_before (begins d t (sym (nil-append _))) refl refl
compared (Text.◌∷◌ c s) Text.[] = is_behind (begins c s (sym (nil-append _))) refl refl
compared (Text.◌∷◌ c s) (Text.◌∷◌ d t) =
    let rest = compared s t in
    elim (trichotomy (code c) (code d)) [
      | inl before ↦ let (p, a, b) = smaller_head c d s t before in is_before p a b
      | inr (inl same) ↦
          subst (λ (e : Char). Compared (Text.◌∷◌ c s) (Text.◌∷◌ e t)) (Char-path c d same)
            (same_head c s t rest)
      | inr (inr behind) ↦ let (p, a, b) = smaller_head d c t s behind in is_behind p b a
    ]

pub text_before_trans :
    (s t u : String) → text_before s t ≡ true → text_before t u ≡ true → text_before s u ≡ true
unfolding text_before
text_before_trans s Text.[] u h k = cc
text_before_trans s t Text.[] h k = cc
text_before_trans Text.[] (Text.◌∷◌ d t) (Text.◌∷◌ e u) h k = refl
text_before_trans (Text.◌∷◌ c s) (Text.◌∷◌ d t) (Text.◌∷◌ e u) h k =
    ground (arith, h, k, text_before_trans s t u)

pub text_before_not_trans :
    (s t u : String) → text_before s t ≡ false → text_before t u ≡ false → text_before s u ≡ false
unfolding text_before
text_before_not_trans s t Text.[] h k = refl
text_before_not_trans s Text.[] (Text.◌∷◌ e u) h k = cc
text_before_not_trans Text.[] (Text.◌∷◌ d t) (Text.◌∷◌ e u) h k = cc
text_before_not_trans (Text.◌∷◌ c s) (Text.◌∷◌ d t) (Text.◌∷◌ e u) h k =
    ground (arith, h, k, text_before_not_trans s t u)

pub text_before_asym : (s t : String) → text_before s t ≡ true → text_before t s ≡ false
text_before_asym s t h = elim (compared s t) [
  | same_text same a b ↦ b
  | is_before p a b ↦ b
  | is_behind p a b ↦ cc
]

pub text_before_connex : (s t : String) → text_before s t ≡ false → text_before t s ≡ false → s ≡ t
text_before_connex s t h k = elim (compared s t) [
  | same_text same a b ↦ same
  | is_before p a b ↦ absurd (true≢false (sym a ∙ h))
  | is_behind p a b ↦ absurd (true≢false (sym b ∙ k))
]

-- A text that comes not before another one is that text, or comes behind it.
pub not_before : (s t : String) → text_before t s ≡ false → (s ≡ t) ⊎ Precedes s t
not_before s t h = elim (compared s t) [
  | same_text same a b ↦ inl same
  | is_before p a b ↦ inr p
  | is_behind p a b ↦ absurd (true≢false (sym b ∙ h))
]
