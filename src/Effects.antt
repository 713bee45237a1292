-- ===== src/Effects.antt =====
-- Calls to the world outside: an action takes the trace of the calls before it, newest first, and
-- gives its result and the trace after it. `defer` and `fmt.Errorf` with a prefix are two ways to
-- build an action of another.
pub mod Blame
pub mod Sure
use geul_asset_optimizer.Base.{String, Option, none, some, List, ◌∷◌, ◌≡◌}
use geul_asset_optimizer.Errors.{Error, wrap, Result, ok, err}

abbrev pub M : Type 0 → Type 0 → Type 0
M E A = List E → Result A × List E

module _ {E A : Type 0} where
  unfoldable pub pure : A → M E A
  pure a tr = (ok a, tr)

  unfoldable pub raise : Error → M E A
  raise e tr = (err e, tr)

module _ {E A B : Type 0} where
  abbrev pub continue : Result A → (A → M E B) → M E B
  continue (ok a) f tr = f a tr
  continue (err e) f tr = (err e, tr)

  infixl 5 ◌>>=◌ ◌>>◌
  unfoldable pub ◌>>=◌ : M E A → (A → M E B) → M E B
  unfolding pure raise
  ◌>>=◌ m f tr = let (r, tr') = m tr in continue r f tr'

  abbrev pub ◌>>◌ : M E A → M E B → M E B
  m >> k = m >>= λ _. k

-- A call that returns only an error.
abbrev pub as_result : Option Error → Result (Unit {0})
as_result none = ok tt
as_result (some e) = err e

abbrev pub with_prefix {ℓ} : {A : Type ℓ} → String → Result A → Result A
with_prefix before (ok a) = ok a
with_prefix before (err e) = err (wrap before e "")

module _ {E A : Type 0} where
  -- A call that the event records, its error wrapped in `fmt.Errorf(before + "%w", err)`.
  unfoldable pub ask : String → (Result A → E) → (List E → Result A) → M E A
  ask before event reply tr = let r = reply tr in (with_prefix before r, event r ∷ tr)

  -- `defer`: what runs when the action has returned, on each of its paths.
  unfoldable pub deferring : M E A → (Result A → List E → List E) → M E A
  deferring m finish tr = let (r, tr') = m tr in (r, finish r tr')

-- As `ask`, for a call that returns only an error.
unfoldable pub call :
    {E : Type 0} → String → (Option Error → E) → (List E → Option Error) → M E (Unit {0})
call before event reply tr = let e = reply tr in (with_prefix before (as_result e), event e ∷ tr)

-- An event of its own, which cannot fail.
unfoldable pub note : {E : Type 0} → (List E → E) → M E (Unit {0})
note event tr = (ok tt, event tr ∷ tr)

-- Seen through `view`, the action leaves things as they were, whatever its result.
pub record Keeps {E A V : Type 0} (view : List E → V) (x : V) (m : M E A) : Type 0 where
  pub keeps : (tr : List E) → view tr ≡ x → view (m tr).1 ≡ x

module _ {E V : Type 0} (view : List E → V) (x : V) where
  pub Keeps-pure : {A : Type 0} (a : A) → Keeps view x (pure a)
  unfolding pure
  Keeps-pure a = record { keeps = λ tr h. h }

  pub Keeps-raise : {A : Type 0} (e : Error) → Keeps view x (raise {A = A} e)
  unfolding raise
  Keeps-raise e = record { keeps = λ tr h. h }

  continue-Keeps :
      {A B : Type 0} (r : Result A) (f : A → M E B)
      → ((a : A) → Keeps view x (f a))
      → Keeps view x (continue r f)
  continue-Keeps (ok a) f hf = record { keeps = (hf a).keeps }
  continue-Keeps (err e) f hf = record { keeps = λ tr h. h }

  pub Keeps-bind :
      {A B : Type 0} {m : M E A} {f : A → M E B}
      → Keeps view x m
      → ((a : A) → Keeps view x (f a))
      → Keeps view x (m >>= f)
  unfolding ◌>>=◌
  Keeps-bind {A} {B} {m} {f} hm hf = record {
    keeps = λ tr h. (continue-Keeps (m tr).0 f hf).keeps (m tr).1 (hm.keeps tr h);
  }

  pub Keeps-ask :
      {A : Type 0} (before : String) (event : Result A → E) (reply : List E → Result A)
      → ((r : Result A) (tr : List E) → view tr ≡ x → view (event r ∷ tr) ≡ x)
      → Keeps view x (ask before event reply)
  unfolding ask
  Keeps-ask before event reply h = record { keeps = λ tr. h (reply tr) tr }

  pub Keeps-call :
      (before : String) (event : Option Error → E) (reply : List E → Option Error)
      → ((e : Option Error) (tr : List E) → view tr ≡ x → view (event e ∷ tr) ≡ x)
      → Keeps view x (call before event reply)
  unfolding call
  Keeps-call before event reply h = record { keeps = λ tr. h (reply tr) tr }

  -- A resource that is opened, used, and released when its use has returned.
  module _ {A : Type 0} (before : String) (event : Option Error → E) (y : V) (body : M E A)
      (finish : Result A → List E → List E)
      (refused : (e : Error) (tr : List E) → view tr ≡ x → view (event (some e) ∷ tr) ≡ x)
      (opened : (tr : List E) → view tr ≡ x → view (event none ∷ tr) ≡ y) (used : Keeps view y body)
      (released : (r : Result A) (tr : List E) → view tr ≡ y → view (finish r tr) ≡ x) where
    acquired_keeps :
        (e : Option Error) (tr : List E)
        → view tr ≡ x
        → view
            (continue
              (with_prefix before (as_result e))
              (λ _. deferring body finish)
              (event e ∷ tr)).1
          ≡ x
    unfolding deferring
    acquired_keeps (some e) tr h = refused e tr h
    acquired_keeps none tr h =
        let (r, tr') = body (event none ∷ tr) in
        released r tr' (used.keeps (event none ∷ tr) (opened tr h))

    pub Keeps-acquire :
        (reply : List E → Option Error)
        → Keeps view x (call before event reply >>= λ _. deferring body finish)
    unfolding ◌>>=◌ call
    Keeps-acquire reply = record { keeps = λ tr h. acquired_keeps (reply tr) tr h }
