-- ===== src/Solve/Context.antt =====
-- The context of an auction: `ctx.Err()` between the steps of the loops of internal/solve. A
-- deadline is a number of such calls that still find the context alive; the calls after them find
-- it done, and it stays done.
use mathlib.Core.Path.{subst}
use aladdin_solver_engine.Prelude.{
  All, List, Option, [], ap, none, refl, some, suc, sym, zero, ℕ, ◌∷◌, ◌≡◌,
}

-- The calls that are left before the deadline; `none` is the context that is never done.
abbrev pub Context : Type 0
Context = Option ℕ

abbrev pub background : Context
background = none

-- The context once it is done.
abbrev pub done : Context
done = some 0

-- What a computation that gives up when the context is done leaves: nothing, or its result and the
-- context after it.
abbrev pub Timed {ℓ} : Type ℓ → Type ℓ
Timed A = Option (A × Context)

-- `if ctx.Err() != nil`: the computation gives up if the context is done.
unfoldable pub poll : Context → Timed (Unit {0})
poll none = some (tt, none)
poll (some zero) = none
poll (some (suc left)) = some (tt, some left)

-- What follows a computation that was not given up.
abbrev pub go_on {ℓ κ} : {A : Type ℓ} {B : Type κ} → Timed A → (A → Context → Timed B) → Timed B
go_on none f = none
go_on (some (a, ctx)) f = f a ctx

-- A loop over a slice whose body may give up.
unfoldable pub fold_timed {ℓ κ} :
    {A : Type ℓ} {S : Type κ} → (A → S → Context → Timed S) → List A → S → Context → Timed S
fold_timed body [] s ctx = some (s, ctx)
fold_timed body (x ∷ xs) s ctx = go_on (body x s ctx) (λ s' ctx'. fold_timed body xs s' ctx')

pub poll-background :
    (ctx ctx' : Context) (u : Unit {0})
    → poll ctx ≡ some (u, ctx')
    → poll background ≡ some (u, background)
unfolding poll
poll-background ctx ctx' u h = refl

result_of : {A : Type 0} → A × Context → Timed A → A
result_of d none = d.0
result_of d (some x) = x.0

pub timed-injective :
    {A : Type 0} (a b : A) (c d : Context) → ◌≡◌ {A = Timed A} (some (a, c)) (some (b, d)) → a ≡ b
unfolding result_of
timed-injective a b c d h = ap (result_of (a, c)) h

pub timed_eq :
    {A : Type 0} (a b : A) (c d : Context)
    → ◌≡◌ {A = Timed A} (some (a, c)) (some (b, d))
    → ◌≡◌ {A = Timed A} (some (a, background)) (some (b, background))
timed_eq a b c d h = ap (λ u. some (u, background)) (timed-injective a b c d h)

module _ {A B : Type 0} where
  pub go_on-eq-some :
      (m : Timed A) (f : A → Context → Timed B) {b : B} {ctx' : Context}
      → go_on m f ≡ some (b, ctx')
      → (a : A) × (ctx : Context) × (m ≡ some (a, ctx)) × (f a ctx ≡ some (b, ctx'))
  go_on-eq-some none f h = cc
  go_on-eq-some (some (a, ctx)) f h = (a, ctx, refl, h)

module _ {A S : Type 0} (body : A → S → Context → Timed S) where
  -- What every round keeps holds after the loop.
  pub fold_timed-keeps :
      (P : S → Type 0)
      → ((x : A) (s s' : S) (ctx ctx' : Context) → P s → body x s ctx ≡ some (s', ctx') → P s')
      → (xs : List A) (s s' : S) (ctx ctx' : Context) → P s
      → fold_timed body xs s ctx ≡ some (s', ctx')
      → P s'
  unfolding fold_timed
  fold_timed-keeps P step [] s s' ctx ctx' p h = subst P (timed-injective s s' ctx ctx' h) p
  fold_timed-keeps P step (x ∷ xs) s s' ctx ctx' p h =
      let (s1, c1, e, h1) = go_on-eq-some (body x s ctx) _ h in
      fold_timed-keeps P step xs s1 s' c1 ctx' (step x s s1 ctx c1 p e) h1

  -- What the round of an element makes true, and the other rounds keep, holds of every element.
  pub fold_timed-reaches :
      (R : A → S → Type 0)
      → ((x : A) (s s' : S) (ctx ctx' : Context) → body x s ctx ≡ some (s', ctx') → R x s')
      → ((x y : A) (s s' : S) (ctx ctx' : Context)
          → R x s
          → body y s ctx ≡ some (s', ctx')
          → R x s')
      → (xs : List A) (s s' : S) (ctx ctx' : Context) → fold_timed body xs s ctx ≡ some (s', ctx')
      → All (λ x. R x s') xs
  unfolding fold_timed
  fold_timed-reaches R first keep [] s s' ctx ctx' h = tt
  fold_timed-reaches R first keep (x ∷ xs) s s' ctx ctx' h =
      let (s1, c1, e, h1) = go_on-eq-some (body x s ctx) _ h in
      (
        fold_timed-keeps (R x) (keep x) xs s1 s' c1 ctx' (first x s s1 ctx c1 e) h1,
        fold_timed-reaches R first keep xs s1 s' c1 ctx' h1,
      )

  -- A loop that is not given up runs as it would without a deadline.
  pub fold_timed-background :
      ((x : A) (s s' : S) (ctx ctx' : Context)
        → body x s ctx ≡ some (s', ctx')
        → body x s background ≡ some (s', background))
      → (xs : List A) (s s' : S) (ctx ctx' : Context) → fold_timed body xs s ctx ≡ some (s', ctx')
      → fold_timed body xs s background ≡ some (s', background)
  unfolding fold_timed
  fold_timed-background same [] s s' ctx ctx' h =
      ap (λ u. some (u, background)) (timed-injective s s' ctx ctx' h)
  fold_timed-background same (x ∷ xs) s s' ctx ctx' h =
      let (s1, c1, e, h1) = go_on-eq-some (body x s ctx) _ h in
      subst (λ m. go_on m (λ u c. fold_timed body xs u c) ≡ some (s', background))
        (sym (same x s s1 ctx c1 e)) (fold_timed-background same xs s1 s' c1 ctx' h1)
