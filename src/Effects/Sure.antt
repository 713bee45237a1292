-- ===== src/Effects/Sure.antt =====
-- Calls that cannot fail where they are made: as the rules of Effects, with what the view tells of the
-- reply.
use geul_asset_optimizer.Base.{String, Option, none, some, List, ◌∷◌, ◌≡◌}
use geul_asset_optimizer.Errors.{Error, Result}
use geul_asset_optimizer.Effects.{
  M, call, deferring, continue, ◌>>=◌, as_result, with_prefix, Keeps,
}

module _ {E V : Type 0} (view : List E → V) (x : V) (before : String) (event : Option Error → E)
    (reply : List E → Option Error) (sure : (tr : List E) → view tr ≡ x → reply tr ≡ none) where
  called_keeps :
      (e : Option Error) (tr : List E)
      → e ≡ none
      → view (event none ∷ tr) ≡ x
      → view (event e ∷ tr) ≡ x
  called_keeps none tr h k = k
  called_keeps (some e) tr h k = cc

  pub Keeps-call_sure :
      ((tr : List E) → view tr ≡ x → view (event none ∷ tr) ≡ x)
      → Keeps view x (call before event reply)
  unfolding call
  Keeps-call_sure h = record { keeps = λ tr k. called_keeps (reply tr) tr (sure tr k) (h tr k) }

  module _ {A : Type 0} (y : V) (body : M E A) (finish : Result A → List E → List E)
      (opened : (tr : List E) → view tr ≡ x → view (event none ∷ tr) ≡ y) (used : Keeps view y body)
      (released : (r : Result A) (tr : List E) → view tr ≡ y → view (finish r tr) ≡ x) where
    acquired_keeps :
        (e : Option Error) (tr : List E)
        → e ≡ none
        → view tr ≡ x
        → view
            (continue
              (with_prefix before (as_result e))
              (λ _. deferring body finish)
              (event e ∷ tr)).1
          ≡ x
    unfolding deferring
    acquired_keeps (some e) tr h k = cc
    acquired_keeps none tr h k =
        let (r, tr') = body (event none ∷ tr) in
        released r tr' (used.keeps (event none ∷ tr) (opened tr k))

    -- A resource that is always opened, used, and released.
    pub Keeps-acquire_sure : Keeps view x (call before event reply >>= λ _. deferring body finish)
    unfolding ◌>>=◌ call
    Keeps-acquire_sure = record { keeps = λ tr k. acquired_keeps (reply tr) tr (sure tr k) k }
