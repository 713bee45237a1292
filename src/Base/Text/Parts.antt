-- ===== src/Base/Text/Parts.antt =====
-- Splitting and joining texts.
use Prim.Native.Char.{Char, code}
use Prim.Native.Nat.{ℕ}
use Prim.Native.String.{String, ◌++◌ as ◌<>◌}
use text.Mathlib.TextLemmas.{nil-append, cons-append, append_assoc}
use mathlib.Core.Logic.{inl, inr}
use mathlib.Core.Path.{◌≡◌, refl}
use mathlib.Core.List.{List, [], ◌∷◌, ◌++◌}
use native.Mathlib.Omega.{arith}
use geul_asset_optimizer.Base.Tests.{◌==◌, Bool-cases}
use geul_asset_optimizer.Base.Text.{contains_char, cons_head, split, join}
use geul_asset_optimizer.Base.Text.Absent.{Lacks}

pub split_whole : (sep : ℕ) (s : String) → Lacks sep s → split sep s ≡ s ∷ []
unfolding split contains_char
split_whole sep String.[] h = refl
split_whole sep (String.◌∷◌ c s) h = ground (arith, split_whole sep s)

pub split_parts :
    (sep : ℕ) (s : String) → (part : String) × (rest : List String) × (split sep s ≡ part ∷ rest)
unfolding split
split_parts sep String.[] = ("", [], refl)
split_parts sep (String.◌∷◌ c s) =
    let (part, rest, h) = split_parts sep s in
    elim (Bool-cases (code c == sep)) [
      | inl same ↦ ("", split sep s, rw same refl)
      | inr other ↦ (String.◌∷◌ c part, rest, rw (other, h) refl)
    ]

cons_head-append :
    (c : Char) (parts more : List String)
    → ((part : String) × (rest : List String) × (parts ≡ part ∷ rest))
    → cons_head c (parts ++ more) ≡ cons_head c parts ++ more
cons_head-append c [] more (part, rest, h) = cc
cons_head-append c (part ∷ rest) more h = refl

-- The part after the last separator is the last part.
pub split-append :
    (s t : String) → Lacks b'/' t → split b'/' (s <> "/" <> t) ≡ split b'/' s ++ (t ∷ [])
unfolding split
split-append String.[] t h =
    rw (nil-append ("/" <> t), cons-append "/" "" t, nil-append t, split, split_whole b'/' t h) refl
split-append (String.◌∷◌ c s) t h =
    rw (cons-append c s ("/" <> t), split, split-append s t h)
      (ground (arith, cons_head-append c (split b'/' s) (t ∷ []) (split_parts b'/' s)))

pub join-snoc :
    (part : String) (parts : List String) (last sep : String)
    → join ((part ∷ parts) ++ (last ∷ [])) sep ≡ join (part ∷ parts) sep <> sep <> last
unfolding join
join-snoc part [] last sep = refl
join-snoc part (other ∷ parts) last sep =
    rw
      (
        join-snoc other parts last sep,
        append_assoc part (sep <> join (other ∷ parts) sep) (sep <> last),
        append_assoc sep (join (other ∷ parts) sep) (sep <> last),
      )
      refl
