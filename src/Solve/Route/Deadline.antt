-- ===== src/Solve/Route/Deadline.antt =====
-- internal/solve/route.go, BestRouteContext: the deadline decides whether the search is given up,
-- never what it finds.
use aladdin_solver_engine.Prelude.{
  Bool-cases, Option, Option-cases, Result-cases, Text, [], inl, inr, non_positive, none, not, some,
  text_eq, to_lower, ℤ, ◌==◌, ◌||◌, ◌∷◌, ◌≡◌,
}
use aladdin_solver_engine.Amm.Pool.{supports}
use aladdin_solver_engine.Amm.Quote.{quote_exact_in_pair}
use aladdin_solver_engine.Solve.Context.{
  Context, Timed, background, fold_timed, fold_timed-background, go_on-eq-some, poll, timed_eq,
}
use aladdin_solver_engine.Solve.Gas.{sum_gas}
use aladdin_solver_engine.Solve.Route.{
  Graph, Ref, Route, best_route, pools_for, search_routes, try_direct, try_first, try_mid,
  try_second,
}

-- A round that is not given up runs as it would without a deadline.
abbrev Steady : {A : Type 0} → (A → Option Route → Context → Timed (Option Route)) → Type 0
Steady {A} body =
    (x : A) (best best' : Option Route) (ctx ctx' : Context)
    → body x best ctx ≡ some (best', ctx')
    → body x best background ≡ some (best', background)

module _ (sell buy : Text) (amount : ℤ) where
  try_direct-Steady : Steady (try_direct sell buy amount)
  unfolding try_direct poll
  try_direct-Steady ref best best' ctx ctx' h =
      let (_, c1, _, h1) = go_on-eq-some (poll ctx) _ h in
      elim (Bool-cases (supports ref.pool sell buy)) [
        | inr s ↦ rw s (timed_eq _ _ _ _ (rw s at h1))
        | inl s ↦ elim (Result-cases (quote_exact_in_pair ref.pool sell buy amount)) [
          | inl (e, q) ↦ rw (s, q) (timed_eq _ _ _ _ (rw (s, q) at h1))
          | inr (out, q) ↦
              let (_, c2, _, h2) = go_on-eq-some (poll c1) _ (rw (s, q) at h1) in
              rw (s, q) (timed_eq _ _ _ _ h2)
        ]
      ]

  try_second-Steady :
      (mid : Text) (first : Ref) (mid_amount : ℤ)
      → Steady (try_second sell mid buy amount first mid_amount)
  unfolding try_second poll
  try_second-Steady mid first mid_amount second best best' ctx ctx' h =
      let (_, c1, _, h1) = go_on-eq-some (poll ctx) _ h in
      elim (Bool-cases ((second.address == first.address) || not (supports second.pool mid buy))) [
        | inl s ↦ rw s (timed_eq _ _ _ _ (rw s at h1))
        | inr s ↦ elim (Result-cases (quote_exact_in_pair second.pool mid buy mid_amount)) [
          | inl (e, q) ↦ rw (s, q) (timed_eq _ _ _ _ (rw (s, q) at h1))
          | inr (out, q) ↦
              let (_, c2, _, h2) = go_on-eq-some (poll c1) _ (rw (s, q) at h1) in
              elim (Option-cases
                (sum_gas (first.pool.gas_estimate ∷ second.pool.gas_estimate ∷ []))) [
                  | inl e ↦ rw (s, q, e) (timed_eq _ _ _ _ (rw e at h2))
                  | inr (gas, e) ↦ rw (s, q, e) (timed_eq _ _ _ _ (rw e at h2))
                ]
        ]
      ]

  module _ (g : Graph) where
    try_first-Steady : (mid : Text) → Steady (try_first g sell mid buy amount)
    unfolding try_first poll
    try_first-Steady mid first best best' ctx ctx' h =
        let (_, c1, _, h1) = go_on-eq-some (poll ctx) _ h in
        elim (Bool-cases (supports first.pool sell mid)) [
          | inr s ↦ rw s (timed_eq _ _ _ _ (rw s at h1))
          | inl s ↦ elim (Result-cases (quote_exact_in_pair first.pool sell mid amount)) [
            | inl (e, q) ↦ rw (s, q) (timed_eq _ _ _ _ (rw (s, q) at h1))
            | inr (m, q) ↦
                rw (s, q)
                  (fold_timed-background (try_second sell mid buy amount first m)
                    (try_second-Steady mid first m) (pools_for g mid) best best' c1 ctx'
                    (rw (s, q) at h1))
          ]
        ]

    try_mid-Steady : Steady (try_mid g sell buy amount)
    unfolding try_mid poll
    try_mid-Steady mid best best' ctx ctx' h =
        let (_, c1, _, h1) = go_on-eq-some (poll ctx) _ h in
        elim (Bool-cases (text_eq mid sell || text_eq mid buy)) [
          | inl s ↦ rw s (timed_eq _ _ _ _ (rw s at h1))
          | inr s ↦ rw s (
              fold_timed-background (try_first g sell mid buy amount) (try_first-Steady mid)
                (pools_for g sell) best best' c1 ctx' (rw s at h1))
        ]

    search_routes-background :
        (best : Option Route) (ctx ctx' : Context)
        → search_routes g sell buy amount ctx ≡ some (best, ctx')
        → search_routes g sell buy amount background ≡ some (best, background)
    unfolding search_routes poll
    search_routes-background best ctx ctx' h =
        let (direct, c1, e1, h1) =
          go_on-eq-some (fold_timed (try_direct sell buy amount) (pools_for g sell) none ctx) _ h in
        let (last, c2, e2, h2) =
          go_on-eq-some (fold_timed (try_mid g sell buy amount) g.intermediates direct c1) _ h1 in
        let (_, c3, _, h3) = go_on-eq-some (poll c2) _ h2 in
        rw
          (
            fold_timed-background (try_direct sell buy amount) try_direct-Steady (pools_for g sell)
                none direct ctx c1 e1,
            fold_timed-background (try_mid g sell buy amount) try_mid-Steady g.intermediates direct
                last c1 c2 e2,
          )
          (timed_eq _ _ _ _ h3)

-- A search for the best route that ends before its deadline finds what it would without one.
pub best_route-background :
    (g : Graph) (sell_token buy_token : Text) (amount : ℤ) (best : Option Route)
    (ctx ctx' : Context)
    → best_route g sell_token buy_token amount ctx ≡ some (best, ctx')
    → best_route g sell_token buy_token amount background ≡ some (best, background)
unfolding best_route poll
best_route-background g sell_token buy_token amount best ctx ctx' h =
    let (_, c1, _, h1) = go_on-eq-some (poll ctx) _ h in
    elim (Bool-cases (text_eq (to_lower sell_token) (to_lower buy_token) || non_positive amount)) [
      | inl s ↦ rw s (timed_eq _ _ _ _ (rw s at h1))
      | inr s ↦ rw s (
          search_routes-background (to_lower sell_token) (to_lower buy_token) amount g best c1 ctx'
            (rw s at h1))
    ]
