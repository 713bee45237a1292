-- ===== src/Handler/Protocol/Moves.antt =====
-- How an action moves the protocol: from one phase to another where it returns a value, and to a
-- third where it returns an error. One rule for each way to build an action.
use geul_asset_optimizer.Base.{Bool, true, false, some, ◌≡◌, refl, arith, if◌then◌else◌, String}
use geul_asset_optimizer.Errors.{Error, Result, ok, err}
use geul_asset_optimizer.Contracts.{FailureReason}
use geul_asset_optimizer.Handler.World.{Trace, M, ◌>>=◌, pure, raise, continue}
use geul_asset_optimizer.Handler.Pipeline.{or_failed}
use geul_asset_optimizer.Handler.Protocol.{Phase, phase}

abbrev pub chosen : {A : Type 0} → Result A → Phase → Phase → Phase
chosen (ok a) q e = q
chosen (err x) q e = e

pub record Moves {A : Type 0} (p q e : Phase) (m : M A) : Type 0 where
  pub at : (tr : Trace) → phase tr ≡ some p → phase (m tr).1 ≡ some (chosen (m tr).0 q e)

pub Moves-pure : {A : Type 0} {p e : Phase} (a : A) → Moves p p e (pure a)
unfolding pure
Moves-pure a = record { at = λ tr h. h }

pub Moves-raise : {A : Type 0} {q e : Phase} (x : Error) → Moves {A = A} e q e (raise x)
unfolding raise
Moves-raise x = record { at = λ tr h. h }

module _ {A B : Type 0} {q r e : Phase} where
  phase-continue :
      (f : A → M B)
      → ((a : A) → Moves q r e (f a))
      → (x : Result A) (tr : Trace) → phase tr ≡ some (chosen x q e)
      → phase (continue x f tr).1 ≡ some (chosen (continue x f tr).0 r e)
  phase-continue f kf (ok a) tr h = (kf a).at tr h
  phase-continue f kf (err x) tr h = h

  pub Moves-bind :
      {p : Phase} (m : M A) (f : A → M B)
      → Moves p q e m
      → ((a : A) → Moves q r e (f a))
      → Moves p r e (m >>= f)
  unfolding ◌>>=◌
  Moves-bind m f km kf = record { at = λ tr h. phase-continue f kf (m tr).0 (m tr).1 (km.at tr h) }

-- The binds of which the search knows the middle phase.
module _ {A B : Type 0} {p q e : Phase} where
  pub Moves-bind_stay :
      (m : M A) (f : A → M B)
      → Moves p p e m
      → ((a : A) → Moves p q e (f a))
      → Moves p q e (m >>= f)
  Moves-bind_stay = Moves-bind

  pub Moves-bind_last :
      (m : M A) (f : A → M B)
      → Moves p q e m
      → ((a : A) → Moves q q e (f a))
      → Moves p q e (m >>= f)
  Moves-bind_last = Moves-bind

module _ {A : Type 0} {p q e : Phase} where
  pub Moves-or_failed :
      (reason : FailureReason) (operation : String) (m : M A)
      → Moves p q e m
      → Moves p q e (or_failed reason operation m)
  unfolding or_failed
  Moves-or_failed reason operation m km = record { at = λ tr h. ground (arith, km.at tr h) }

  pub Moves-if :
      (b : Bool) (m n : M A) → Moves p q e m → Moves p q e n → Moves p q e (if b then m else n)
  Moves-if true m n km kn = km
  Moves-if false m n km kn = kn

chosen_same : {A : Type 0} (r : Result A) (q : Phase) → chosen r q q ≡ q
chosen_same (ok a) q = refl
chosen_same (err x) q = refl

-- The phase after an action that ends in the same phase with or without an error.
pub Moves-same :
    {A : Type 0} {p q : Phase} (m : M A) (tr : Trace)
    → Moves p q q m
    → phase tr ≡ some p
    → phase (m tr).1 ≡ some q
Moves-same {q} m tr km h = rw (chosen_same (m tr).0 q) at (km.at tr h)

pub ruleset moves_rules =
    (Moves-pure, Moves-raise, Moves-bind_stay, Moves-bind_last, Moves-or_failed, Moves-if)
