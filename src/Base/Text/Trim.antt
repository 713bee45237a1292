-- ===== src/Base/Text/Trim.antt =====
-- What trimming leaves alone, and how texts that are put together are searched and split.
use Prim.Native.Char.{Char, code}
use Prim.Native.Nat.{ℕ}
use Prim.Native.String.{String, ◌++◌ as ◌<>◌}
use text.Mathlib.TextLemmas.{nil-append, cons-append}
use mathlib.Core.Path.{◌≡◌, refl, ap, ◌∙◌}
use mathlib.Core.Bool.{Bool, true, false}
use mathlib.Core.List.{List, [], ◌∷◌}
use native.Mathlib.Omega.{arith}
use geul_asset_optimizer.Base.Text.{
  is_empty, trim_left_func, trim_right_func, trim_space, contains_char, split, join, is_space,
}
use geul_asset_optimizer.Base.Text.Absent.{Lacks}
use geul_asset_optimizer.Base.Text.Parts.{split_whole}

-- A text that ends with a character that `p` keeps.
pub record EndsTight (p : ℕ → Bool) (s : String) : Type 0 where
  pub something : is_empty s ≡ false
  pub kept : trim_right_func p s ≡ s

module _ (p : ℕ → Bool) where
  pub EndsTight-cons : (c : Char) (s : String) → EndsTight p s → EndsTight p (String.◌∷◌ c s)
  unfolding trim_right_func
  EndsTight-cons c s h = record { something = refl; kept = rw h.kept (ground (arith, h.something)) }

  pub EndsTight-append : (s t : String) → EndsTight p t → EndsTight p (s <> t)
  EndsTight-append String.[] t h = rw (nil-append t) h
  EndsTight-append (String.◌∷◌ c s) t h =
      rw (cons-append c s t) (EndsTight-cons c (s <> t) (EndsTight-append s t h))

  pub EndsTight-one : (c : Char) → p (code c) ≡ false → EndsTight p (String.◌∷◌ c "")
  unfolding trim_right_func
  EndsTight-one c h = record { something = refl; kept = ground (arith, h) }

pub trim_space_tight :
    (c : Char) (s : String)
    → is_space (code c) ≡ false
    → EndsTight is_space (String.◌∷◌ c s)
    → trim_space (String.◌∷◌ c s) ≡ String.◌∷◌ c s
unfolding trim_space trim_left_func
trim_space_tight c s h t = rw (h, trim_left_func) t.kept

pub contains_char-append_left :
    (d : ℕ) (s t : String) → contains_char d s ≡ true → contains_char d (s <> t) ≡ true
unfolding contains_char
contains_char-append_left d String.[] t h = cc
contains_char-append_left d (String.◌∷◌ c s) t h =
    rw (cons-append c s t) (ground (arith, contains_char-append_left d s t))

pub contains_char-append_right :
    (d : ℕ) (s t : String) → contains_char d t ≡ true → contains_char d (s <> t) ≡ true
unfolding contains_char
contains_char-append_right d String.[] t h = rw (nil-append t) h
contains_char-append_right d (String.◌∷◌ c s) t h =
    rw (cons-append c s t) (ground (arith, contains_char-append_right d s t h))

-- A part before a line feed is split off.
pub split-line : (s t : String) → Lacks b'\n' s → split b'\n' (s <> "\n" <> t) ≡ s ∷ split b'\n' t
unfolding split contains_char
split-line String.[] t h =
    rw (nil-append ("\n" <> t), cons-append "\n" "" t, nil-append t, split) refl
split-line (String.◌∷◌ c s) t h =
    rw (cons-append c s ("\n" <> t), split) (ground (arith, split-line s t, h))

-- Every text of a list lacks the character.
abbrev pub AllLack : ℕ → List String → Type 0
AllLack d [] = Unit
AllLack d (s ∷ rest) = Lacks d s × AllLack d rest

-- Lines that are joined are split again.
pub split-join :
    (line : String) (lines : List String)
    → AllLack b'\n' (line ∷ lines)
    → split b'\n' (join (line ∷ lines) "\n") ≡ line ∷ lines
unfolding join
split-join line [] (h, u) = split_whole b'\n' line h
split-join line (next ∷ lines) (h, rest) =
    split-line line (join (next ∷ lines) "\n") h ∙ ap (λ ls. line ∷ ls) (split-join next lines rest)
