-- ===== src/Solve/Engine/Wire.antt =====
-- internal/solve/solve.go, Solve: what holds of every solution.
use aladdin_solver_engine.Prelude.{
  All, Bool, Bool-cases, List, Option-cases, Text, [], all_distinct, arith, codes, equal_fold,
  false, inl, inr, ltb_ℤ, mem_text, refl, some, text_eq, to_lower, true, ℕ, ℤ, ◌-ℤ◌, ◌||◌, ◌∷◌, ◌≡◌,
}
use aladdin_solver_engine.Solve.Context.{Context, go_on-eq-some, timed-injective}
use aladdin_solver_engine.Solve.Gas.{sum_gas}
use aladdin_solver_engine.Solve.Route.{Graph, Hop, Route, best_route}
use aladdin_solver_engine.Solve.MinInput.{min_input_for}
use aladdin_solver_engine.Solve.Order.{
  Interaction, Order, Solution, amounts_of, buy_kind, is_unsupported,
}
use aladdin_solver_engine.Solve.Order.Supported.{IsSupported}
use aladdin_solver_engine.Solve.RouteOrder.{
  Config, Outcome, hops_to_interactions, reason_limit, reason_no_route, reason_ok, route_buy,
  route_order, route_sell, settle,
}
use aladdin_solver_engine.Solve.Cow.{Match, match_solution}
use aladdin_solver_engine.Api.Encode.Valid.{IsWireSolution}

false-or : (a b : Bool) → (a || b) ≡ false → (a ≡ false) × (b ≡ false)
false-or a b h = ground arith

-- The two tokens of a supported order differ, whatever the case of their letters.
supported-tokens :
    (o : Order) → IsSupported o → text_eq (to_lower o.sell_token) (to_lower o.buy_token) ≡ false
unfolding is_unsupported equal_fold
supported-tokens o h = (false-or _ _ h).1

pair-distinct : (s t : Text) → text_eq s t ≡ false → all_distinct (s ∷ t ∷ []) ≡ true
unfolding all_distinct mem_text
pair-distinct s t h = rw h refl

hops-liquidity :
    (hops : List Hop)
    → All (λ i. Interaction.kind i ≡ codes "liquidity") (hops_to_interactions hops)
unfolding hops_to_interactions
hops-liquidity [] = tt
hops-liquidity (h ∷ hs) = (refl, hops-liquidity hs)

pub match_solution-wire :
    (m : Match) (id gas : ℕ) → IsSupported m.a → IsWireSolution (match_solution m id gas)
unfolding match_solution
match_solution-wire m id gas h =
    (pair-distinct _ _ (supported-tokens m.a h), (refl, (refl, tt)), tt)

-- What holds of the solution of an outcome, if it has one.
abbrev pub Holds : (Solution → Type 0) → Outcome → Type 0
Holds P (reason_ok r) = P r.solution
Holds P reason_no_route = Unit
Holds P reason_limit = Unit

settle-wire :
    (cfg : Config) (sell buy : Text) (p q : ℤ) (uid : Text) (executed : ℤ) (route : Route)
    (surplus : ℤ) (token : Text)
    → text_eq sell buy ≡ false
    → Holds IsWireSolution (settle cfg sell buy p q uid executed route surplus token)
unfolding settle
settle-wire cfg sell buy p q uid executed route surplus token d =
    elim (Option-cases
      (sum_gas (cfg.settlement_overhead_gas ∷ cfg.per_trade_gas ∷ route.gas ∷ []))) [
        | inl e ↦ rw (settle, e) tt
        | inr (gas, e) ↦
            rw (settle, e) (pair-distinct sell buy d, (refl, tt), hops-liquidity route.hops)
      ]

route_buy-wire :
    (o : Order) (g : Graph) (cfg : Config) (sell buy : Text) (s b : ℤ) (out : Outcome)
    (ctx ctx' : Context)
    → text_eq sell buy ≡ false
    → route_buy o g cfg sell buy s b ctx ≡ some (out, ctx')
    → Holds IsWireSolution out
unfolding route_buy
route_buy-wire o g cfg sell buy s b out ctx ctx' d h =
    let (found, c1, _, h1) = go_on-eq-some (min_input_for g sell buy b s ctx) _ h in
    elim (Option-cases found) [
      | inl e ↦ rw (← timed-injective _ _ _ _ (rw e at h1)) tt
      | inr ((input, route), e) ↦
          rw (← timed-injective _ _ _ _ (rw e at h1))
            (settle-wire cfg sell buy b input o.uid b route (s -ℤ input) sell d)
    ]

route_sell-wire :
    (o : Order) (g : Graph) (cfg : Config) (sell buy : Text) (s b : ℤ) (out : Outcome)
    (ctx ctx' : Context)
    → text_eq sell buy ≡ false
    → route_sell o g cfg sell buy s b ctx ≡ some (out, ctx')
    → Holds IsWireSolution out
unfolding route_sell
route_sell-wire o g cfg sell buy s b out ctx ctx' d h =
    let (found, c1, _, h1) = go_on-eq-some (best_route g sell buy s ctx) _ h in
    elim (Option-cases found) [
      | inl e ↦ rw (← timed-injective _ _ _ _ (rw e at h1)) tt
      | inr (route, e) ↦ elim (Bool-cases (ltb_ℤ route.out b)) [
        | inl low ↦ rw (← timed-injective _ _ _ _ (rw (e, low) at h1)) tt
        | inr high ↦
            rw (← timed-injective _ _ _ _ (rw (e, high) at h1))
              (settle-wire cfg sell buy route.out s o.uid s route (route.out -ℤ b) buy d)
      ]
    ]

pub route_order-wire :
    (o : Order) (g : Graph) (cfg : Config) (out : Outcome) (ctx ctx' : Context)
    → IsSupported o
    → route_order o g cfg ctx ≡ some (out, ctx')
    → Holds IsWireSolution out
unfolding route_order
route_order-wire o g cfg out ctx ctx' supported h =
    let d = supported-tokens o supported in
    elim (Option-cases (amounts_of o)) [
      | inl e ↦ rw (← timed-injective _ _ _ _ (rw (route_order, e) at h)) tt
      | inr ((s, b), e) ↦ elim (Bool-cases (text_eq o.kind buy_kind)) [
        | inl k ↦ route_buy-wire o g cfg _ _ s b out ctx ctx' d (rw (route_order, e, k) at h)
        | inr k ↦ route_sell-wire o g cfg _ _ s b out ctx ctx' d (rw (route_order, e, k) at h)
      ]
    ]

pub match_solution_id : (m : Match) (id gas : ℕ) → (match_solution m id gas).id ≡ id
unfolding match_solution
match_solution_id m id gas = refl
