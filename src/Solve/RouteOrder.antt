-- ===== src/Solve/RouteOrder.antt =====
-- internal/solve/solve.go, routeOrder: the solution of a single order through the pools.
pub mod Limits
use aladdin_solver_engine.Prelude.{
  Bool, List, Text, [], codes, false, ltb_ℤ, none, pos, show_int, some, text_eq, to_lower, true, ℕ,
  ℤ, ◌-ℤ◌, ◌∷◌,
}
use aladdin_solver_engine.Solve.Context.{Context, Timed, go_on}
use aladdin_solver_engine.Solve.Gas.{sum_gas}
use aladdin_solver_engine.Solve.Route.{Graph, Hop, Route, best_route}
use aladdin_solver_engine.Solve.MinInput.{min_input_for}
use aladdin_solver_engine.Solve.Order.{Interaction, Order, Solution, Trade, amounts_of, buy_kind}

pub record Config : Type 0 where
  pub settlement_overhead_gas : ℕ
  pub per_trade_gas : ℕ
  pub require_profitable : Bool
  pub max_solutions : ℤ
  pub max_orders : ℤ
  pub max_pools : ℤ

abbrev pub default_config : Config
default_config = record {
  settlement_overhead_gas = 106_000;
  per_trade_gas = 60_000;
  require_profitable = true;
  max_solutions = pos 40;
  max_orders = pos 250;
  max_pools = pos 2048;
}

-- A solution with its surplus, the token of the surplus and the gas.
pub record Routed : Type 0 where
  pub solution : Solution
  pub surplus : ℤ
  pub surplus_token : Text
  pub gas : ℕ

-- The reason why an order has no solution, or the solution; giving up is `reasonCancelled`.
pub data Outcome : Type 0 where
  reason_ok : Routed → Outcome
  reason_no_route reason_limit : Outcome

unfoldable pub hops_to_interactions : List Hop → List Interaction
hops_to_interactions [] = []
hops_to_interactions (hop ∷ rest) =
    record {
      kind = codes "liquidity";
      id = hop.pool.id;
      input_token = hop.token_in;
      output_token = hop.token_out;
      input_amount = show_int hop.amount_in;
      output_amount = show_int hop.out;
      internalize = false;
    }
    ∷ hops_to_interactions rest

abbrev pub trade_of : Text → ℤ → Trade
trade_of uid executed = record {
  kind = codes "fulfillment";
  order = uid;
  executed_amount = show_int executed;
  fee = [];
}

-- The solution of an order by a route, at the given prices of the two tokens.
unfoldable pub settle : Config → Text → Text → ℤ → ℤ → Text → ℤ → Route → ℤ → Text → Outcome
settle cfg sell buy sell_price buy_price uid executed route surplus surplus_token =
    elim (sum_gas (cfg.settlement_overhead_gas ∷ cfg.per_trade_gas ∷ route.gas ∷ [])) [
      | none ↦ reason_no_route
      | some gas ↦ reason_ok (record {
        solution = record {
          id = 0;
          prices = (sell, show_int sell_price) ∷ (buy, show_int buy_price) ∷ [];
          trades = trade_of uid executed ∷ [];
          interactions = hops_to_interactions route.hops;
          gas = gas;
        };
        surplus = surplus;
        surplus_token = surplus_token;
        gas = gas;
      })
    ]

unfoldable pub route_buy : Order → Graph → Config → Text → Text → ℤ → ℤ → Context → Timed Outcome
route_buy order g cfg sell buy sell_amount buy_amount ctx =
    go_on (min_input_for g sell buy buy_amount sell_amount ctx) λ found ctx1. elim found [
      | none ↦ some (reason_no_route, ctx1)
      | some (input, route) ↦ some (
        settle cfg sell buy buy_amount input order.uid buy_amount route (sell_amount -ℤ input) sell,
        ctx1,
      )
    ]

unfoldable pub route_sell : Order → Graph → Config → Text → Text → ℤ → ℤ → Context → Timed Outcome
route_sell order g cfg sell buy sell_amount buy_amount ctx =
    go_on (best_route g sell buy sell_amount ctx) λ found ctx1. elim found [
      | none ↦ some (reason_no_route, ctx1)
      | some route ↦ elim (ltb_ℤ route.out buy_amount) [
        | true ↦ some (reason_limit, ctx1)
        | false ↦ some (
          settle cfg sell buy route.out sell_amount order.uid sell_amount route
              (route.out -ℤ buy_amount) buy,
          ctx1,
        )
      ]
    ]

unfoldable pub route_order : Order → Graph → Config → Context → Timed Outcome
route_order order g cfg ctx = elim (amounts_of order) [
  | none ↦ some (reason_no_route, ctx)
  | some (sell_amount, buy_amount) ↦
      let sell = to_lower order.sell_token in
      let buy = to_lower order.buy_token in
      elim (text_eq order.kind buy_kind) [
        | true ↦ route_buy order g cfg sell buy sell_amount buy_amount ctx
        | false ↦ route_sell order g cfg sell buy sell_amount buy_amount ctx
      ]
]
