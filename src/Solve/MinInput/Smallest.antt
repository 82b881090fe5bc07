-- ===== src/Solve/MinInput/Smallest.antt =====
-- internal/solve/solve.go, minInputFor: the input of a buy order.
use mathlib.Core.Path.{subst}
use aladdin_solver_engine.Prelude.{
  Bool-cases, Option, Text, ap, arith, inl, inr, leb, leb_ℤ, none, pos, refl, some, true, ℕ, ℤ, ◌-◌,
  ◌<◌, ◌^◌, ◌≡◌, ◌≤◌,
}
use aladdin_solver_engine.Solve.Context.{Context, background, go_on-eq-some, timed-injective}
use aladdin_solver_engine.Solve.Route.{Graph, Route, best_route}
use aladdin_solver_engine.Solve.Route.Deadline.{best_route-background}
use aladdin_solver_engine.Solve.MinInput.{max_rounds, min_input_for, min_loop}
use aladdin_solver_engine.Solve.MinInput.Bisect.{
  Attains, Found, bounds_at, enough-cases, loop-Found,
}

pair_of : {A B : Type 0} → A × B → Option (A × B) → A × B
pair_of d none = d
pair_of d (some x) = x

found_pair :
    (a b : ℤ) (r s : Route)
    → ◌≡◌ {A = Option (ℤ × Route)} (some (a, r)) (some (b, s))
    → ◌≡◌ {A = ℤ × Route} (a, r) (b, s)
unfolding pair_of
found_pair a b r s h = ap (pair_of (a, r)) h

-- The input found for an amount that is wanted buys it, by the route returned; it is positive and at
-- most the given maximum; and one unit less does not buy it, unless the input is a single unit. The
-- maximum is positive and fits 256 bits.
pub min_input_for-Found :
    (g : Graph) (sell buy : Text) (want : ℤ) (max_in : ℕ) (input : ℤ) (r : Route)
    (ctx ctx' : Context)
    → 0 < max_in
    → max_in < 2 ^ 256
    → min_input_for g sell buy want (pos max_in) ctx ≡ some (some (input, r), ctx')
    → Found (best_route g sell buy) want max_in input r
unfolding min_input_for
min_input_for-Found g sell buy want max_in input r ctx ctx' p fits h =
    let (full, c1, e, h1) = go_on-eq-some (best_route g sell buy (pos max_in) ctx) _ h in
    elim (enough-cases want full) [
      | inr (en, _) ↦ let e0 = timed-injective _ _ _ _ (rw en at h1) in cc
      | inl (r0, er, wanted, en) ↦
          let (b, c2, run, h2) =
            go_on-eq-some
              (min_loop (best_route g sell buy) want max_rounds (bounds_at 1 max_in max_in r0) c1) _
              (rw en at h1) in
          subst (λ (x : ℤ × Route). Found (best_route g sell buy) want max_in x.0 x.1)
            (found_pair _ _ _ _ (timed-injective _ _ _ _ h2))
            (loop-Found (best_route g sell buy) want max_in
              (λ i o c c' q. best_route-background g sell buy i o c c' q) max_rounds 1 max_in max_in
              r0 b c1 c2 (omega arith) (omega arith) p (omega arith) (inr refl)
              (
                subst (λ o. best_route g sell buy (pos max_in) background ≡ some (o, background)) er
                    (best_route-background g sell buy (pos max_in) full ctx c1 e),
                wanted,
              )
              (inl refl) (omega arith) run)
    ]

-- If enough stays enough for every larger input up to the maximum, the input found is the smallest
-- positive one that buys what is wanted. The maximum is positive and fits 256 bits.
pub min_input_for_minimal :
    (g : Graph) (sell buy : Text) (want : ℤ) (max_in : ℕ) (input : ℤ) (r : Route)
    (ctx ctx' : Context)
    → 0 < max_in
    → max_in < 2 ^ 256
    → min_input_for g sell buy want (pos max_in) ctx ≡ some (some (input, r), ctx')
    → ((a b : ℕ) (s : Route)
        → a ≤ b
        → b ≤ max_in
        → Attains (best_route g sell buy) want a s
        → (t : Route) × Attains (best_route g sell buy) want b t)
    → (k : ℕ) (s : Route) → 0 < k
    → Attains (best_route g sell buy) want k s
    → leb_ℤ input (pos k) ≡ true
min_input_for_minimal g sell buy want max_in input r ctx ctx' p fits h grow k s pk a =
    let (n, e, pn, small, _, least) =
      min_input_for-Found g sell buy want max_in input r ctx ctx' p fits h in
    elim (Bool-cases (leb n k)) [
      | inl le ↦ rw (e, le)
      | inr lt ↦ elim least [
        | inl one ↦ absurd (ground arith)
        | inr short ↦
            let below : k ≤ n - 1 = ground arith in
            let (t, at) = grow k (n - 1) s below (omega arith) a in absurd (short t at)
      ]
    ]
