-- ===== src/Solve/Route/Optimal.antt =====
-- internal/solve/route.go, BestRouteContext: what it returns is a route, and no other is better.
use mathlib.Core.Path.{subst}
use aladdin_solver_engine.Prelude.{
  All, All-map, Bool-cases, Option, Result-cases, Text, false, inl, inr, non_positive, none, ok,
  some, text_eq, to_lower, true, ℤ, ◌||◌, ◌≡◌,
}
use aladdin_solver_engine.Amm.Pool.{supports}
use aladdin_solver_engine.Amm.Quote.{quote_exact_in_pair}
use aladdin_solver_engine.Solve.Context.{
  Context, fold_timed, fold_timed-reaches, go_on-eq-some, poll, timed-injective,
}
use aladdin_solver_engine.Solve.Route.{
  Graph, Ref, Route, best_route, pools_for, search_routes, try_direct, try_first, try_mid,
  try_second,
}
use aladdin_solver_engine.Solve.Route.Best.{Every, Grown, Grown-same, Grows, fold_timed-Grows}
use aladdin_solver_engine.Solve.Route.Candidates.{
  DirectCovered, IsRoute, SecondCovered, try_direct-Grows, try_direct-covers, try_second-Grows,
  try_second-covers,
}

module _ (g : Graph) (sell buy : Text) (amount : ℤ) where
  -- A route through the first pool, the token and any second pool is not better than the best one.
  abbrev pub FirstCovered : Text → Ref → Option Route → Type 0
  FirstCovered mid first best =
      supports first.pool sell mid ≡ true
      → (mid_amount : ℤ) → quote_exact_in_pair first.pool sell mid amount ≡ ok mid_amount
      → All (λ second. SecondCovered sell buy amount mid first mid_amount second best)
          (pools_for g mid)

  -- The same of a token between, with any two pools.
  abbrev pub MidCovered : Text → Option Route → Type 0
  MidCovered mid best =
      (text_eq mid sell || text_eq mid buy) ≡ false
      → All (λ first. FirstCovered mid first best) (pools_for g sell)

  -- No route, direct or through one of the tokens between, is better.
  abbrev pub NoBetter : Option Route → Type 0
  NoBetter best =
      All (λ ref. DirectCovered sell buy amount ref best) (pools_for g sell)
      × All (λ mid. MidCovered mid best) g.intermediates

  FirstCovered-grow :
      (mid : Text) (first : Ref) (a b : Option Route)
      → Grown (IsRoute sell buy amount) a b
      → FirstCovered mid first a
      → FirstCovered mid first b
  FirstCovered-grow mid first a b grown c s m q =
      All-map _ _ (λ second d ne t out gas p e. grown.0 out (d ne t out gas p e)) (pools_for g mid)
        (c s m q)

  MidCovered-grow :
      (mid : Text) (a b : Option Route)
      → Grown (IsRoute sell buy amount) a b
      → MidCovered mid a
      → MidCovered mid b
  MidCovered-grow mid a b grown c ne =
      All-map _ _ (λ first d. FirstCovered-grow mid first a b grown d) (pools_for g sell) (c ne)

  try_first-Grows : (mid : Text) → Grows (IsRoute sell buy amount) (try_first g sell mid buy amount)
  unfolding try_first
  try_first-Grows mid first best best' ctx ctx' h =
      let (_, c1, _, h1) = go_on-eq-some (poll ctx) _ h in
      elim (Bool-cases (supports first.pool sell mid)) [
        | inr s ↦ Grown-same _ best best' (timed-injective _ _ _ _ (rw s at h1))
        | inl s ↦ elim (Result-cases (quote_exact_in_pair first.pool sell mid amount)) [
          | inl (e, q) ↦ Grown-same _ best best' (timed-injective _ _ _ _ (rw (s, q) at h1))
          | inr (m, q) ↦
              fold_timed-Grows _ (try_second sell mid buy amount first m)
                (try_second-Grows sell buy amount mid first m q) (pools_for g mid) best best' c1
                ctx' (rw (s, q) at h1)
        ]
      ]

  try_first-covers :
      (mid : Text) (first : Ref) (best best' : Option Route) (ctx ctx' : Context)
      → try_first g sell mid buy amount first best ctx ≡ some (best', ctx')
      → FirstCovered mid first best'
  unfolding try_first
  try_first-covers mid first best best' ctx ctx' h s m q =
      let (_, c1, _, h1) = go_on-eq-some (poll ctx) _ h in
      fold_timed-reaches (try_second sell mid buy amount first m)
        (SecondCovered sell buy amount mid first m)
        (λ x u u' c c' e. try_second-covers sell buy amount mid first m x u u' c c' e)
        (λ x y u u' c c' d e ne t out gas p k.
          (try_second-Grows sell buy amount mid first m q y u u' c c' e).0 out (d ne t out gas p k))
        (pools_for g mid) best best' c1 ctx' (rw (s, q) at h1)

  try_mid-Grows : Grows (IsRoute sell buy amount) (try_mid g sell buy amount)
  unfolding try_mid
  try_mid-Grows mid best best' ctx ctx' h =
      let (_, c1, _, h1) = go_on-eq-some (poll ctx) _ h in
      elim (Bool-cases (text_eq mid sell || text_eq mid buy)) [
        | inl s ↦ Grown-same _ best best' (timed-injective _ _ _ _ (rw s at h1))
        | inr s ↦
            fold_timed-Grows _ (try_first g sell mid buy amount) (try_first-Grows mid)
              (pools_for g sell) best best' c1 ctx' (rw s at h1)
      ]

  try_mid-covers :
      (mid : Text) (best best' : Option Route) (ctx ctx' : Context)
      → try_mid g sell buy amount mid best ctx ≡ some (best', ctx')
      → MidCovered mid best'
  unfolding try_mid
  try_mid-covers mid best best' ctx ctx' h ne =
      let (_, c1, _, h1) = go_on-eq-some (poll ctx) _ h in
      fold_timed-reaches (try_first g sell mid buy amount) (FirstCovered mid)
        (λ x u u' c c' e. try_first-covers mid x u u' c c' e)
        (λ x y u u' c c' d e. FirstCovered-grow mid x u u' (try_first-Grows mid y u u' c c' e) d)
        (pools_for g sell) best best' c1 ctx' (rw ne at h1)

  pub search_routes-IsRoute :
      (best : Option Route) (ctx ctx' : Context)
      → search_routes g sell buy amount ctx ≡ some (best, ctx')
      → Every (IsRoute sell buy amount) best × NoBetter best
  unfolding search_routes
  search_routes-IsRoute best ctx ctx' h =
      let (direct, c1, e1, h1) =
        go_on-eq-some (fold_timed (try_direct sell buy amount) (pools_for g sell) none ctx) _ h in
      let (last, c2, e2, h2) =
        go_on-eq-some (fold_timed (try_mid g sell buy amount) g.intermediates direct c1) _ h1 in
      let (_, c3, _, h3) = go_on-eq-some (poll c2) _ h2 in
      let first_part =
        fold_timed-Grows _ (try_direct sell buy amount) (try_direct-Grows sell buy amount)
          (pools_for g sell) none direct ctx c1 e1 in
      let second_part =
        fold_timed-Grows _ (try_mid g sell buy amount) try_mid-Grows g.intermediates direct last c1
          c2 e2 in
      let directs =
        fold_timed-reaches (try_direct sell buy amount) (DirectCovered sell buy amount)
          (λ x u u' c c' e. try_direct-covers sell buy amount x u u' c c' e)
          (λ x y u u' c c' d e s out q.
            (try_direct-Grows sell buy amount y u u' c c' e).0 out (d s out q))
          (pools_for g sell) none direct ctx c1 e1 in
      let mids =
        fold_timed-reaches (try_mid g sell buy amount) MidCovered
          (λ x u u' c c' e. try_mid-covers x u u' c c' e)
          (λ x y u u' c c' d e. MidCovered-grow x u u' (try_mid-Grows y u u' c c' e) d)
          g.intermediates direct last c1 c2 e2 in
      subst (λ b. Every (IsRoute sell buy amount) b × NoBetter b) (timed-injective _ _ _ _ h3)
        (
          second_part.1 (first_part.1 tt),
          (
            All-map _ _ (λ x d s out q. second_part.0 out (d s out q)) (pools_for g sell) directs,
            mids,
          ),
        )

-- What the search for the best route of a positive amount between two different tokens returns
-- before its deadline is a route priced by the pools' quotes, and no route through one pool, or
-- through two different pools and one of the tokens between, pays more.
pub best_route-IsRoute :
    (g : Graph) (sell_token buy_token : Text) (amount : ℤ) (best : Option Route)
    (ctx ctx' : Context)
    → text_eq (to_lower sell_token) (to_lower buy_token) ≡ false
    → non_positive amount ≡ false
    → best_route g sell_token buy_token amount ctx ≡ some (best, ctx')
    → Every (IsRoute (to_lower sell_token) (to_lower buy_token) amount) best
      × NoBetter g (to_lower sell_token) (to_lower buy_token) amount best
unfolding best_route
best_route-IsRoute g sell_token buy_token amount best ctx ctx' ne p h =
    let (_, c1, _, h1) = go_on-eq-some (poll ctx) _ h in
    search_routes-IsRoute g (to_lower sell_token) (to_lower buy_token) amount best c1 ctx'
      (rw (ne, p) at h1)
