-- ===== src/Effects/Blame.antt =====
-- Which calls an action's error stands for: the events that `fatal` selects.
use geul_asset_optimizer.Base.{
  String, Bool, true, false, ◌||◌, Option, none, some, List, [], ◌∷◌, ◌≡◌, refl, sym, ap, ◌∙◌,
  arith,
}
use geul_asset_optimizer.Errors.{is_some, is_err, Error, Result, ok, err}
use geul_asset_optimizer.Effects.{M, ◌>>=◌, continue, ask, call, deferring, as_result, with_prefix}

-- Whether an event of the trace is one that `test` selects.
unfoldable pub any : {E : Type 0} → (E → Bool) → List E → Bool
any test [] = false
any test (e ∷ tr) = test e || any test tr

-- The action fails exactly when one of its own calls is fatal.
pub record IsBlamed {E A : Type 0} (fatal : E → Bool) (m : M E A) : Type 0 where
  pub blamed : (tr : List E) → any fatal (m tr).1 ≡ (any fatal tr || is_err (m tr).0)

module _ {E : Type 0} (fatal : E → Bool) where
  or_false : (b : Bool) → b ≡ (b || false)
  or_false true = refl
  or_false false = refl

  continue_blamed :
      {A B : Type 0} (r : Result A) (f : A → M E B) (b : Bool) (tr : List E)
      → ((a : A) → IsBlamed fatal (f a))
      → any fatal tr ≡ (b || is_err r)
      → any fatal (continue r f tr).1 ≡ (b || is_err (continue r f tr).0)
  continue_blamed (ok a) f b tr hf h =
      (hf a).blamed tr ∙ ap (λ c. c || is_err (f a tr).0) (h ∙ sym (or_false b))
  continue_blamed (err e) f b tr hf h = h

  pub IsBlamed-bind :
      {A B : Type 0} {m : M E A} {f : A → M E B}
      → IsBlamed fatal m
      → ((a : A) → IsBlamed fatal (f a))
      → IsBlamed fatal (m >>= f)
  unfolding ◌>>=◌
  IsBlamed-bind {A} {B} {m} {f} hm hf = record {
    blamed = λ tr. continue_blamed (m tr).0 f (any fatal tr) (m tr).1 hf (hm.blamed tr);
  }

  blame_swap : (a b : Bool) → (a || b) ≡ (b || a)
  blame_swap a b = ground arith

  called_blamed :
      (before : String) (event : Option Error → E) (e : Option Error) (tr : List E)
      → fatal (event e) ≡ is_some e
      → any fatal (event e ∷ tr) ≡ (any fatal tr || is_err (with_prefix before (as_result e)))
  unfolding any
  called_blamed before event none tr h = rw h (or_false (any fatal tr))
  called_blamed before event (some e) tr h = rw h (blame_swap true (any fatal tr))

  pub IsBlamed-call :
      (before : String) (event : Option Error → E) (reply : List E → Option Error)
      → ((e : Option Error) → fatal (event e) ≡ is_some e)
      → IsBlamed fatal (call before event reply)
  unfolding call
  IsBlamed-call before event reply h = record {
    blamed = λ tr. called_blamed before event (reply tr) tr (h (reply tr));
  }

  asked_blamed :
      {A : Type 0} (before : String) (event : Result A → E) (r : Result A) (tr : List E)
      → fatal (event r) ≡ is_err r
      → any fatal (event r ∷ tr) ≡ (any fatal tr || is_err (with_prefix before r))
  unfolding any
  asked_blamed before event (ok a) tr h = rw h (or_false (any fatal tr))
  asked_blamed before event (err e) tr h = rw h (blame_swap true (any fatal tr))

  pub IsBlamed-ask :
      {A : Type 0} (before : String) (event : Result A → E) (reply : List E → Result A)
      → ((r : Result A) → fatal (event r) ≡ is_err r)
      → IsBlamed fatal (ask before event reply)
  unfolding ask
  IsBlamed-ask before event reply h = record {
    blamed = λ tr. asked_blamed before event (reply tr) tr (h (reply tr));
  }

  pub IsBlamed-deferring :
      {A : Type 0} {m : M E A} (finish : Result A → List E → List E)
      → IsBlamed fatal m
      → ((r : Result A) (tr : List E) → any fatal (finish r tr) ≡ any fatal tr)
      → IsBlamed fatal (deferring m finish)
  unfolding deferring
  IsBlamed-deferring {A} {m} finish hm hf = record {
    blamed = λ tr. hf (m tr).0 (m tr).1 ∙ hm.blamed tr;
  }

-- An action that returns no error has made an event that `test` selects.
pub record Achieves {E A : Type 0} (test : E → Bool) (m : M E A) : Type 0 where
  pub achieved : (tr : List E) → is_err (m tr).0 ≡ false → any test (m tr).1 ≡ true

module _ {E : Type 0} (test : E → Bool) where
  continue-Achieves :
      {A B : Type 0} (r : Result A) (f : A → M E B) (tr : List E)
      → ((a : A) → Achieves test (f a))
      → is_err (continue r f tr).0 ≡ false
      → any test (continue r f tr).1 ≡ true
  continue-Achieves (ok a) f tr hf h = (hf a).achieved tr h
  continue-Achieves (err e) f tr hf h = cc

  pub Achieves-bind :
      {A B : Type 0} (m : M E A) {f : A → M E B}
      → ((a : A) → Achieves test (f a))
      → Achieves test (m >>= f)
  unfolding ◌>>=◌
  Achieves-bind {A} {B} m {f} hf = record {
    achieved = λ tr. continue-Achieves (m tr).0 f (m tr).1 hf;
  }

  pub Achieves-deferring :
      {A : Type 0} {m : M E A} (finish : Result A → List E → List E)
      → Achieves test m
      → ((r : Result A) (tr : List E) → any test tr ≡ true → any test (finish r tr) ≡ true)
      → Achieves test (deferring m finish)
  unfolding deferring
  Achieves-deferring {A} {m} finish hm hf = record {
    achieved = λ tr h. hf (m tr).0 (m tr).1 (hm.achieved tr h);
  }
