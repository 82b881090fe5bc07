-- ===== src/Solve/RouteOrder/Limits.antt =====
-- internal/solve/solve.go, routeOrder: the limit price of the order.
use mathlib.Core.Path.{subst}
use native.Mathlib.Nat.{mul-le-mul_left}
use aladdin_solver_engine.Prelude.{
  Bool, Bool-cases, Option-cases, Text, [], ap, arith, false, if◌then◌else◌, inl, inr, ltb_ℤ,
  negsuc, pos, refl, show_int, some, text_eq, to_lower, true, ℕ, ℤ, ◌*◌, ◌+◌, ◌-ℤ◌, ◌-◌, ◌<◌, ◌^◌,
  ◌∷◌, ◌≡◌, ◌≤◌,
}
use aladdin_solver_engine.Solve.Context.{Context, go_on-eq-some, timed-injective}
use aladdin_solver_engine.Solve.Gas.{sum_gas}
use aladdin_solver_engine.Solve.Route.{Graph, Route, best_route}
use aladdin_solver_engine.Solve.MinInput.{min_input_for}
use aladdin_solver_engine.Solve.MinInput.Smallest.{min_input_for-Found}
use aladdin_solver_engine.Solve.Order.{Order, amounts_of, buy_kind}
use aladdin_solver_engine.Solve.RouteOrder.{
  Config, Outcome, Routed, reason_limit, reason_no_route, reason_ok, route_buy, route_order,
  route_sell, settle, trade_of,
}

routed_of : Routed → Outcome → Routed
routed_of d (reason_ok r) = r
routed_of d reason_no_route = d
routed_of d reason_limit = d

routed_injective : (r s : Routed) → reason_ok r ≡ reason_ok s → r ≡ s
unfolding routed_of
routed_injective r s h = ap (routed_of r) h

-- The prices of the two tokens and the surplus: a buy order pays by the input found, a sell order is
-- paid the output of the route.
abbrev Priced : Bool → ℕ → ℕ → ℕ → ℕ → ℕ → Type 0
Priced true s b sell_price buy_price surplus = (sell_price ≡ b) × (s ≡ buy_price + surplus)
Priced false s b sell_price buy_price surplus = (buy_price ≡ s) × (sell_price ≡ b + surplus)

-- An order to sell s for b at least, or to buy b for s at most: it is executed as a whole, s sold at
-- the prices of the solution pays b, and the surplus is that of the prices, in the right token.
abbrev pub Respects : Bool → Text → Text → Text → ℕ → ℕ → Routed → Type 0
Respects bought uid sell buy s b r =
    (sell_price : ℕ) × (buy_price : ℕ) × (surplus : ℕ) × (r.solution.prices
      ≡ (sell, show_int (pos sell_price)) ∷ (buy, show_int (pos buy_price)) ∷ [])
    × (r.solution.trades ≡ trade_of uid (pos (if bought then b else s)) ∷ [])
    × (b * buy_price ≤ s * sell_price)
    × (r.surplus ≡ pos surplus)
    × (r.surplus_token ≡ (if bought then sell else buy))
    × Priced bought s b sell_price buy_price surplus

Priced-limit : (bought : Bool) (s b p q surplus : ℕ) → Priced bought s b p q surplus → b * q ≤ s * p
Priced-limit true s b p q surplus (e, f) =
    rw (e, f) (omega (arith, mul-le-mul_left b (below q surplus)))
  where
    below : (q surplus : ℕ) → q ≤ q + surplus
    below q surplus = omega arith
Priced-limit false s b p q surplus (e, f) =
    rw (e, f) (omega (arith, mul-le-mul_left s (below b surplus)))
  where
    below : (b surplus : ℕ) → b ≤ b + surplus
    below b surplus = omega arith

settle-Respects :
    (bought : Bool) (cfg : Config) (sell buy : Text) (p q : ℕ) (uid : Text) (s b : ℕ)
    (route : Route) (surplus : ℕ) (r : Routed)
    → Priced bought s b p q surplus
    → settle cfg sell buy
        (pos p)
        (pos q)
        uid
        (pos (if bought then b else s))
        route
        (pos surplus)
        (if bought then sell else buy)
      ≡ reason_ok r
    → Respects bought uid sell buy s b r
unfolding settle
settle-Respects bought cfg sell buy p q uid s b route surplus r priced h =
    elim (Option-cases
      (sum_gas (cfg.settlement_overhead_gas ∷ cfg.per_trade_gas ∷ route.gas ∷ []))) [
        | inl e ↦ let h1 = rw (settle, e) at h in cc
        | inr (gas, e) ↦
            subst (Respects bought uid sell buy s b) (routed_injective _ r (rw (settle, e) at h)) (
              p,
              q,
              surplus,
              refl,
              refl,
              Priced-limit bought s b p q surplus priced,
              refl,
              refl,
              priced,
            )
      ]

paid_enough : (a : ℤ) (b : ℕ) → ltb_ℤ a (pos b) ≡ false → (n : ℕ) × (a ≡ pos n) × (b ≤ n)
paid_enough (pos n) b h = (n, refl, ground arith)
paid_enough (negsuc n) b h = absurd (ground arith)

difference : (a b : ℕ) → b ≤ a → pos a -ℤ pos b ≡ pos (a - b)
difference a b h = ground arith

route_sell-Respects :
    (order : Order) (g : Graph) (cfg : Config) (sell buy : Text) (s b : ℕ) (r : Routed)
    (ctx ctx' : Context)
    → route_sell order g cfg sell buy (pos s) (pos b) ctx ≡ some (reason_ok r, ctx')
    → Respects false order.uid sell buy s b r
unfolding route_sell
route_sell-Respects order g cfg sell buy s b r ctx ctx' h =
    let (found, c1, _, h1) = go_on-eq-some (best_route g sell buy (pos s) ctx) _ h in
    elim (Option-cases found) [
      | inl none_found ↦ let clash = timed-injective _ _ _ _ (rw none_found at h1) in cc
      | inr (route, is_found) ↦ elim (Bool-cases (ltb_ℤ route.out (pos b))) [
        | inl low ↦ let clash = timed-injective _ _ _ _ (rw (is_found, low) at h1) in cc
        | inr enough_out ↦
            let (n, paid, at_least) = paid_enough route.out b enough_out in
            let settled = timed-injective _ _ _ _ (rw (is_found, enough_out) at h1) in
            settle-Respects false cfg sell buy n s order.uid s b route (n - b) r
              (refl, omega (arith, at_least))
              (let priced =
                  subst
                    (λ o.
                      settle cfg sell buy o (pos s) order.uid (pos s) route (o -ℤ pos b) buy
                      ≡ reason_ok r)
                    paid settled in
                rw (difference n b at_least) at priced)
      ]
    ]

route_buy-Respects :
    (order : Order) (g : Graph) (cfg : Config) (sell buy : Text) (s b : ℕ) (r : Routed)
    (ctx ctx' : Context)
    → 0 < s
    → s < 2 ^ 256
    → route_buy order g cfg sell buy (pos s) (pos b) ctx ≡ some (reason_ok r, ctx')
    → Respects true order.uid sell buy s b r
unfolding route_buy
route_buy-Respects order g cfg sell buy s b r ctx ctx' p fits h =
    let (found, c1, e, h1) = go_on-eq-some (min_input_for g sell buy (pos b) (pos s) ctx) _ h in
    elim (Option-cases found) [
      | inl none_found ↦ let clash = timed-injective _ _ _ _ (rw none_found at h1) in cc
      | inr ((input, route), is_found) ↦
          let run =
            subst (λ o. min_input_for g sell buy (pos b) (pos s) ctx ≡ some (o, c1)) is_found e in
          let (n, en, _, small, _, _) =
            min_input_for-Found g sell buy (pos b) s input route ctx c1 p fits run in
          let settled = timed-injective _ _ _ _ (rw is_found at h1) in
          settle-Respects true cfg sell buy b n order.uid s b route (s - n) r
            (refl, omega (arith, small)) (rw (en, difference s n small) at settled)
    ]

-- An order that is routed is executed as a whole, its sold amount for a sell order and its bought
-- amount for a buy order, and its limit is kept at the clearing prices of the solution: the sold
-- amount at the price of its token is worth at least the bought amount at the price of the other.
-- The surplus is what these prices leave over the limit, of the bought token for a sell order and of
-- the sold token for a buy order. The amount sold is positive and fits 256 bits, and the amount
-- bought is not negative.
pub route_order-Respects :
    (order : Order) (g : Graph) (cfg : Config) (s b : ℕ) (r : Routed) (ctx ctx' : Context)
    → amounts_of order ≡ some (pos s, pos b)
    → 0 < s
    → s < 2 ^ 256
    → route_order order g cfg ctx ≡ some (reason_ok r, ctx')
    → Respects
        (text_eq order.kind buy_kind)
        order.uid
        (to_lower order.sell_token)
        (to_lower order.buy_token)
        s
        b
        r
unfolding route_order
route_order-Respects order g cfg s b r ctx ctx' amounts p fits h =
    elim (Bool-cases (text_eq order.kind buy_kind)) [
      | inl k ↦ rw k (
          route_buy-Respects order g cfg _ _ s b r ctx ctx' p fits
            (rw (route_order, amounts, k) at h))
      | inr k ↦
          rw k
            (route_sell-Respects order g cfg _ _ s b r ctx ctx' (rw (route_order, amounts, k) at h))
    ]
