-- ===== src/Solve/Route/Candidates.antt =====
-- internal/solve/route.go: the routes that the search looks at, and how each round of its loops
-- treats them.
use mathlib.Core.Path.{subst}
use aladdin_solver_engine.Prelude.{
  Bool-cases, Option, Option-cases, Result-cases, Text, [], false, inl, inr, not, ok, or_false_left,
  refl, some, true, ℕ, ℤ, ◌==◌, ◌||◌, ◌∷◌, ◌≡◌, ◌⊎◌,
}
use aladdin_solver_engine.Amm.Pool.{supports}
use aladdin_solver_engine.Amm.Quote.{quote_exact_in_pair}
use aladdin_solver_engine.Solve.Context.{Context, go_on-eq-some, poll, timed-injective}
use aladdin_solver_engine.Solve.Gas.{sum_gas}
use aladdin_solver_engine.Solve.Route.{Ref, Route, one_hop, try_direct, try_second, two_hops}
use aladdin_solver_engine.Solve.Route.Best.{
  AtLeast, Grown, Grown-better, Grown-same, Grows, better-covers,
}

module _ (sell buy : Text) (amount : ℤ) where
  -- A route through one pool, priced by its quote.
  abbrev pub IsDirect : Route → Type 0
  IsDirect r =
      (ref : Ref) × (out : ℤ) × (supports ref.pool sell buy ≡ true)
      × (quote_exact_in_pair ref.pool sell buy amount ≡ ok out)
      × (r ≡ one_hop ref.pool sell buy amount out)

  -- A route through two different pools: the second is asked for what the first pays.
  abbrev pub IsThrough : Route → Type 0
  IsThrough r =
      (mid : Text) × (first : Ref) × (second : Ref) × (mid_amount : ℤ) × (out : ℤ) × (gas : ℕ)
      × ((second.address == first.address) ≡ false)
      × (quote_exact_in_pair first.pool sell mid amount ≡ ok mid_amount)
      × (quote_exact_in_pair second.pool mid buy mid_amount ≡ ok out)
      × (sum_gas (first.pool.gas_estimate ∷ second.pool.gas_estimate ∷ []) ≡ some gas)
      × (r ≡ two_hops first.pool second.pool sell mid buy amount mid_amount out gas)

  abbrev pub IsRoute : Route → Type 0
  IsRoute r = IsDirect r ⊎ IsThrough r

  -- A route through this pool alone is not better than the best one.
  abbrev pub DirectCovered : Ref → Option Route → Type 0
  DirectCovered ref best =
      supports ref.pool sell buy ≡ true
      → (out : ℤ) → quote_exact_in_pair ref.pool sell buy amount ≡ ok out
      → AtLeast out best

  pub try_direct-Grows : Grows IsRoute (try_direct sell buy amount)
  unfolding try_direct
  try_direct-Grows ref best best' ctx ctx' h =
      let (_, c1, _, h1) = go_on-eq-some (poll ctx) _ h in
      elim (Bool-cases (supports ref.pool sell buy)) [
        | inr s ↦ Grown-same IsRoute best best' (timed-injective _ _ _ _ (rw s at h1))
        | inl s ↦ elim (Result-cases (quote_exact_in_pair ref.pool sell buy amount)) [
          | inl (e, q) ↦ Grown-same IsRoute best best' (timed-injective _ _ _ _ (rw (s, q) at h1))
          | inr (out, q) ↦
              let (_, c2, _, h2) = go_on-eq-some (poll c1) _ (rw (s, q) at h1) in
              subst (Grown IsRoute best) (timed-injective _ _ _ _ h2) (
                Grown-better IsRoute best (one_hop ref.pool sell buy amount out)
                  (inl (ref, out, s, q, refl)))
        ]
      ]

  pub try_direct-covers :
      (ref : Ref) (best best' : Option Route) (ctx ctx' : Context)
      → try_direct sell buy amount ref best ctx ≡ some (best', ctx')
      → DirectCovered ref best'
  unfolding try_direct
  try_direct-covers ref best best' ctx ctx' h s out q =
      let (_, c1, _, h1) = go_on-eq-some (poll ctx) _ h in
      let (_, c2, _, h2) = go_on-eq-some (poll c1) _ (rw (s, q) at h1) in
      subst (AtLeast out) (timed-injective _ _ _ _ h2)
        (better-covers best (one_hop ref.pool sell buy amount out))

  module _ (mid : Text) (first : Ref) (mid_amount : ℤ) where
    -- A route through these two pools is not better than the best one.
    abbrev pub SecondCovered : Ref → Option Route → Type 0
    SecondCovered second best =
        (second.address == first.address) ≡ false
        → supports second.pool mid buy ≡ true
        → (out : ℤ) (gas : ℕ) → quote_exact_in_pair second.pool mid buy mid_amount ≡ ok out
        → sum_gas (first.pool.gas_estimate ∷ second.pool.gas_estimate ∷ []) ≡ some gas
        → AtLeast out best

    pub try_second-Grows :
        quote_exact_in_pair first.pool sell mid amount ≡ ok mid_amount
        → Grows IsRoute (try_second sell mid buy amount first mid_amount)
    unfolding try_second
    try_second-Grows qf second best best' ctx ctx' h =
        let (_, c1, _, h1) = go_on-eq-some (poll ctx) _ h in
        elim (Bool-cases
          ((second.address == first.address) || not (supports second.pool mid buy))) [
            | inl s ↦ Grown-same IsRoute best best' (timed-injective _ _ _ _ (rw s at h1))
            | inr s ↦ elim (Result-cases (quote_exact_in_pair second.pool mid buy mid_amount)) [
              | inl (e, q) ↦
                  Grown-same IsRoute best best' (timed-injective _ _ _ _ (rw (s, q) at h1))
              | inr (out, q) ↦
                  let (_, c2, _, h2) = go_on-eq-some (poll c1) _ (rw (s, q) at h1) in
                  elim (Option-cases
                    (sum_gas (first.pool.gas_estimate ∷ second.pool.gas_estimate ∷ []))) [
                      | inl g ↦ Grown-same IsRoute best best' (timed-injective _ _ _ _ (rw g at h2))
                      | inr (gas, g) ↦
                          subst (Grown IsRoute best) (timed-injective _ _ _ _ (rw g at h2)) (
                            Grown-better IsRoute best
                              (two_hops first.pool second.pool sell mid buy amount mid_amount out
                                gas)
                              (inr (
                                mid,
                                first,
                                second,
                                mid_amount,
                                out,
                                gas,
                                or_false_left _ _ s,
                                qf,
                                q,
                                g,
                                refl,
                              )))
                    ]
            ]
          ]

    pub try_second-covers :
        (second : Ref) (best best' : Option Route) (ctx ctx' : Context)
        → try_second sell mid buy amount first mid_amount second best ctx ≡ some (best', ctx')
        → SecondCovered second best'
    unfolding try_second
    try_second-covers second best best' ctx ctx' h d s out gas q g =
        let (_, c1, _, h1) = go_on-eq-some (poll ctx) _ h in
        let (_, c2, _, h2) = go_on-eq-some (poll c1) _ (rw (d, s, q) at h1) in
        subst (AtLeast out) (timed-injective _ _ _ _ (rw g at h2)) (
          better-covers best
            (two_hops first.pool second.pool sell mid buy amount mid_amount out gas))
