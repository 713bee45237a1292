-- ===== src/Tests/Sorting.antt =====
-- An insertion sort, for tests of what is sorted by a function of a library.
use mathlib.Core.List.{Perm}
use mathlib.Core.List.Perm
use geul_asset_optimizer.Base.{
  Bool, true, false, List, [], ◌∷◌, ◌≡◌, sym, ◌∙◌, inl, inr, Bool-cases, if◌then◌else◌,
}
use mathlib.Core.Bool.{true≢false}
use geul_asset_optimizer.Lint.{Violation}
use geul_asset_optimizer.Lint.Files.Order.{IsWeakOrder, IsSorted}

unfoldable pub insert : (Violation → Violation → Bool) → Violation → List Violation → List Violation
insert less v [] = v ∷ []
insert less v (w ∷ vs) = let rest = insert less v vs in if less w v then w ∷ rest else v ∷ w ∷ vs

unfoldable pub insertion_sort : (Violation → Violation → Bool) → List Violation → List Violation
unfolding insert
insertion_sort less [] = []
insertion_sort less (v ∷ vs) = insert less v (insertion_sort less vs)

module _ (less : Violation → Violation → Bool) where
  insert-perm : (v : Violation) (vs : List Violation) → Perm (insert less v vs) (v ∷ vs)
  unfolding insert
  insert-perm v [] = Perm.refl (v ∷ [])
  insert-perm v (w ∷ vs) = elim (Bool-cases (less w v)) [
    | inl b ↦ rw b (Perm.trans (Perm.cons w (insert-perm v vs)) (Perm.swap v w vs))
    | inr b ↦ rw b (Perm.refl (v ∷ w ∷ vs))
  ]

  pub insertion_sort-perm : (vs : List Violation) → Perm (insertion_sort less vs) vs
  unfolding insertion_sort
  insertion_sort-perm [] = Perm.refl []
  insertion_sort-perm (v ∷ vs) =
      Perm.trans (insert-perm v (insertion_sort less vs)) (Perm.cons v (insertion_sort-perm vs))

  -- The head of a list comes not before `w`.
  abbrev StartsAfter : Violation → List Violation → Type 0
  StartsAfter w [] = Unit {0}
  StartsAfter w (v ∷ vs) = less v w ≡ false

  IsSorted-cons :
      (w : Violation) (vs : List Violation)
      → StartsAfter w vs
      → IsSorted less vs
      → IsSorted less (w ∷ vs)
  IsSorted-cons w [] h k = tt
  IsSorted-cons w (v ∷ vs) h k = (h, k)

  IsSorted-tail :
      (w : Violation) (vs : List Violation)
      → IsSorted less (w ∷ vs)
      → StartsAfter w vs × IsSorted less vs
  IsSorted-tail w [] h = (tt, tt)
  IsSorted-tail w (v ∷ vs) h = h

  module _ (weak : IsWeakOrder less) where
    asym : (v w : Violation) → less v w ≡ true → less w v ≡ false
    asym v w h = elim (Bool-cases (less w v)) [
      | inl back ↦ absurd (true≢false (sym (weak.trans v w v h back) ∙ weak.irrefl v))
      | inr apart ↦ apart
    ]

    starts-insert :
        (w v : Violation) (vs : List Violation)
        → less v w ≡ false
        → StartsAfter w vs
        → StartsAfter w (insert less v vs)
    unfolding insert
    starts-insert w v [] h k = h
    starts-insert w v (x ∷ vs) h k = elim (Bool-cases (less x v)) [
      | inl b ↦ rw b k
      | inr b ↦ rw b h
    ]

    insert-IsSorted :
        (v : Violation) (vs : List Violation) → IsSorted less vs → IsSorted less (insert less v vs)
    unfolding insert
    insert-IsSorted v [] h = tt
    insert-IsSorted v (w ∷ vs) h = elim (Bool-cases (less w v)) [
      | inl b ↦ rw b (
          IsSorted-cons w (insert less v vs)
            (starts-insert w v vs (asym w v b) (IsSorted-tail w vs h).0)
            (insert-IsSorted v vs (IsSorted-tail w vs h).1))
      | inr b ↦ rw b (b, h)
    ]

    pub insertion_sort-IsSorted : (vs : List Violation) → IsSorted less (insertion_sort less vs)
    unfolding insertion_sort
    insertion_sort-IsSorted [] = tt
    insertion_sort-IsSorted (v ∷ vs) =
        insert-IsSorted v (insertion_sort less vs) (insertion_sort-IsSorted vs)
