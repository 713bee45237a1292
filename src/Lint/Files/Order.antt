-- ===== src/Lint/Files/Order.antt =====
-- The order in which scripts/ci/no-nested-if.go prints what it found.
pub mod Texts
use mathlib.Core.List.{Perm}
use mathlib.Core.List.Perm
use geul_asset_optimizer.Base.{
  ℕ, String, Bool, true, false, List, [], ◌∷◌, ◌≡◌, refl, sym, ap, ◌∙◌, ◌≤◌, ◌⊎◌, inl, inr, arith,
  ltb, str_eq, eq_iff, Bool-cases, if◌then◌else◌,
}
use geul_asset_optimizer.Lint.{Violation}
use geul_asset_optimizer.Lint.Files.{
  Env, text_before, before, finish, returned, Outcome, inspect_roots, main,
}
use geul_asset_optimizer.Lint.Files.Clean.{roots_of}
use geul_asset_optimizer.Lint.Files.Order.Texts.{
  Precedes, text_before_trans, text_before_not_trans, text_before_asym, text_before_connex,
  not_before,
}

-- What `sort.Slice` asks of its order: a strict weak order.
pub record IsWeakOrder (less : Violation → Violation → Bool) : Type 0 where
  pub irrefl : (v : Violation) → less v v ≡ false
  pub trans : (v w x : Violation) → less v w ≡ true → less w x ≡ true → less v x ≡ true
  pub not_trans : (v w x : Violation) → less v w ≡ false → less w x ≡ false → less v x ≡ false

-- Each element comes not before the one that it follows.
abbrev pub IsSorted : (Violation → Violation → Bool) → List Violation → Type 0
IsSorted less [] = Unit {0}
IsSorted less (v ∷ []) = Unit {0}
IsSorted less (v ∷ w ∷ vs) = (less w v ≡ false) × IsSorted less (w ∷ vs)

-- `sort.Slice` as it is documented: it permutes the list, and sorts it by a strict weak order.
pub record Sorts (env : Env) : Type 0 where
  pub permutes :
      (less : Violation → Violation → Bool) (vs : List Violation) → Perm (env.sort_slice less vs) vs
  pub sorts :
      (less : Violation → Violation → Bool) (vs : List Violation)
      → IsWeakOrder less
      → IsSorted less (env.sort_slice less vs)

before_irrefl : (v : Violation) → before v v ≡ false
unfolding before
before_irrefl v = ground (arith, eq_iff v.path v.path)

before_trans : (v w x : Violation) → before v w ≡ true → before w x ≡ true → before v x ≡ true
unfolding before
before_trans v w x h k = ground (
  arith,
  h,
  k,
  eq_iff v.path w.path,
  eq_iff w.path x.path,
  eq_iff v.path x.path,
  text_before_trans v.path w.path x.path,
  text_before_asym v.path w.path,
  text_before_asym w.path x.path,
)

before_not_trans :
    (v w x : Violation) → before v w ≡ false → before w x ≡ false → before v x ≡ false
unfolding before
before_not_trans v w x h k = ground (
  arith,
  h,
  k,
  eq_iff v.path w.path,
  eq_iff w.path x.path,
  eq_iff v.path x.path,
  text_before_not_trans v.path w.path x.path,
  text_before_connex v.path w.path,
  text_before_connex w.path x.path,
)

before-IsWeakOrder : IsWeakOrder before
before-IsWeakOrder = record {
  irrefl = before_irrefl;
  trans = before_trans;
  not_trans = before_not_trans;
}

-- In the order of paths, and within a file in the order of offsets.
abbrev pub IsInOrder : List Violation → Type 0
IsInOrder [] = Unit {0}
IsInOrder (v ∷ []) = Unit {0}
IsInOrder (v ∷ w ∷ vs) =
    (Precedes v.path w.path ⊎ ((v.path ≡ w.path) × (v.position.offset ≤ w.position.offset)))
    × IsInOrder (w ∷ vs)

in_order :
    (v w : Violation)
    → before w v ≡ false
    → Precedes v.path w.path ⊎ ((v.path ≡ w.path) × (v.position.offset ≤ w.position.offset))
unfolding before
in_order v w h = elim (Bool-cases (str_eq w.path v.path)) [
  | inl same ↦ inr (sym ((eq_iff w.path v.path).0 same), ground (arith, h, same))
  | inr differ ↦ elim (not_before v.path w.path (ground (arith, h, differ))) [
    | inl same ↦ absurd (ground (arith, same, differ, eq_iff w.path v.path))
    | inr precedes ↦ inl precedes
  ]
]

IsSorted-IsInOrder : (vs : List Violation) → IsSorted before vs → IsInOrder vs
IsSorted-IsInOrder [] h = tt
IsSorted-IsInOrder (v ∷ []) h = tt
IsSorted-IsInOrder (v ∷ w ∷ vs) h = (in_order v w h.0, IsSorted-IsInOrder (w ∷ vs) h.1)

module _ (env : Env) (library : Sorts env) where
  finish-IsInOrder :
      (o : Outcome) (vs : List Violation)
      → o ≡ returned vs
      → Perm (finish env o).1 vs × IsInOrder (finish env o).1
  unfolding finish
  finish-IsInOrder o [] h = rw h (Perm.refl [], tt)
  finish-IsInOrder o (v ∷ vs) h = rw h (
    library.permutes before (v ∷ vs),
    IsSorted-IsInOrder (env.sort_slice before (v ∷ vs))
        (library.sorts before (v ∷ vs) before-IsWeakOrder),
  )

  -- When the search for files ends without an error, what the lint prints is a permutation of the
  -- violations that it found, and of two that stand next to each other the path of the first is a
  -- beginning of the second's, or has the smaller character where they first differ, or they lie in one
  -- file and the first has no larger offset. The condition is that sort.Slice permutes its argument and
  -- sorts it by any strict weak order.
  pub main-IsInOrder :
      (roots : List String) (vs : List Violation)
      → inspect_roots env (roots_of env roots) [] ≡ returned vs
      → Perm (main env roots).1 vs × IsInOrder (main env roots).1
  unfolding main
  main-IsInOrder [] vs h = finish-IsInOrder _ vs h
  main-IsInOrder (root ∷ roots) vs h = finish-IsInOrder _ vs h
