-- ===== src/Solve/Engine.antt =====
-- internal/solve/solve.go, Solve: the solutions of an auction.
pub mod Wire
pub mod Sound
pub mod Answer
use aladdin_solver_engine.Prelude.{
  List, Option, Text, [], abs, false, if◌then◌else◌, length, ltb_ℤ, negative, non_positive, none,
  not, parse_int, pos, some, take, true, ℕ, ℤ, ◌%◌, ◌&&◌, ◌++◌, ◌+◌, ◌^◌, ◌∷◌,
}
use aladdin_solver_engine.Solve.Context.{Context, done, poll}
use aladdin_solver_engine.Solve.Gas.{sum_gas}
use aladdin_solver_engine.Solve.Route.{Graph, new_graph}
use aladdin_solver_engine.Solve.Order.{Order, Solution, eligible}
use aladdin_solver_engine.Solve.Profit.{Tokens, profitable}
use aladdin_solver_engine.Solve.RouteOrder.{
  Config, Outcome, default_config, reason_limit, reason_no_route, reason_ok, route_order,
}
use aladdin_solver_engine.Solve.Cow.{Match, cow_profitable, find_matches, is_used, match_solution}
use aladdin_solver_engine.Solve.Liquidity.{Liquidity}
use aladdin_solver_engine.Solve.Pools.{Built, Skipped, build_pools}

-- `none` is a slice or a map that is nil.
pub record Auction : Type 0 where
  pub id : Option Text
  pub tokens : Option Tokens
  pub orders : Option (List Order)
  pub liquidity : Option (List Liquidity)
  pub effective_gas_price : Text
  pub deadline : Text
  pub surplus_capturing_jit_order_owner : Option (List Text)

pub record Stats : Type 0 where
  pub orders : ℕ
  pub pools_usable : ℕ
  pub pools_skipped : Skipped
  pub cow_matches : ℕ
  pub baseline_routes : ℕ
  pub dropped_unsupported_order : ℕ
  pub dropped_no_route : ℕ
  pub dropped_limit : ℕ
  pub dropped_not_profitable : ℕ
  pub candidate_solutions : ℕ
  pub solutions : ℕ

-- The package's `Result`; `none` is the slice that is nil.
pub record SolveResult : Type 0 where
  pub solutions : Option (List Solution)
  pub stats : Stats

-- A nil slice is walked as an empty one.
abbrev pub or_nil {ℓ} : {A : Type ℓ} → Option (List A) → List A
or_nil none = []
or_nil (some xs) = xs

-- What `append` has made of a nil slice: it is nil as long as nothing was appended.
abbrev pub appended_slice {ℓ} : {A : Type ℓ} → List A → Option (List A)
appended_slice [] = none
appended_slice (x ∷ xs) = some (x ∷ xs)

unfoldable pub with_defaults : Config → Config
with_defaults cfg = record cfg {
  max_orders = if non_positive cfg.max_orders then default_config.max_orders else cfg.max_orders;
  max_pools = if non_positive cfg.max_pools then default_config.max_pools else cfg.max_pools;
}

-- A price that is no number or is negative is zero.
unfoldable pub gas_price_of : Text → ℤ
gas_price_of raw = elim (parse_int raw) [
  | none ↦ pos 0
  | some price ↦ if negative price then pos 0 else price
]

-- The variables of the two passes: the solutions so far, the next id, the orders matched.
pub record Run : Type 0 where
  pub solutions : List Solution
  pub id : ℕ
  pub matched : List Text
  pub stats : Stats

-- What the passes read: the configuration, the price of gas and the tokens.
pub record Terms : Type 0 where
  pub cfg : Config
  pub gas_price : ℤ
  pub tokens : Tokens

abbrev not_profitable : ℕ → Run → Run
not_profitable n run = record run {
  stats = record run.stats { dropped_not_profitable = run.stats.dropped_not_profitable + n };
}

-- `id++` of 64 bits.
abbrev pub next_id : ℕ → ℕ
next_id id = (id + 1) % 2 ^ 64

abbrev pub count_match : Stats → Stats
count_match stats = record stats { cow_matches = stats.cow_matches + 1 }

abbrev pub count_route : Stats → Stats
count_route stats = record stats { baseline_routes = stats.baseline_routes + 1 }

-- The body of the first loop.
unfoldable pub take_match : Terms → Match → Run → Run
take_match terms m run =
    elim (sum_gas (
      terms.cfg.settlement_overhead_gas ∷ terms.cfg.per_trade_gas ∷ terms.cfg.per_trade_gas ∷ [])) [
        | none ↦ not_profitable 2 run
        | some gas ↦
            elim (terms.cfg.require_profitable
              && not (cow_profitable m gas terms.gas_price terms.tokens)) [
                | true ↦ not_profitable 2 run
                | false ↦ record {
                  solutions = run.solutions ++ (match_solution m run.id gas ∷ []);
                  id = next_id run.id;
                  matched = m.a.uid ∷ m.b.uid ∷ run.matched;
                  stats = count_match run.stats;
                }
              ]
      ]

-- The first loop; the context stays done once it is.
unfoldable pub match_loop : Terms → List Match → Run → Context → Run × Context
match_loop terms [] run ctx = (run, ctx)
match_loop terms (m ∷ rest) run ctx = elim (poll ctx) [
  | none ↦ (run, done)
  | some (_, ctx1) ↦ match_loop terms rest (take_match terms m run) ctx1
]

-- The body of the second loop, after the call of `routeOrder`.
unfoldable pub take_outcome : Terms → Outcome → Run → Run
take_outcome terms reason_no_route run = record run {
  stats = record run.stats { dropped_no_route = run.stats.dropped_no_route + 1 };
}
take_outcome terms reason_limit run = record run {
  stats = record run.stats { dropped_limit = run.stats.dropped_limit + 1 };
}
take_outcome terms (reason_ok r) run =
    elim (terms.cfg.require_profitable
      && not (profitable r.surplus r.surplus_token r.gas terms.gas_price terms.tokens)) [
        | true ↦ not_profitable 1 run
        | false ↦ record run {
          solutions = run.solutions ++ (record r.solution { id = run.id } ∷ []);
          id = next_id run.id;
          stats = count_route run.stats;
        }
      ]

unfoldable pub route_loop : Terms → Graph → List Order → Run → Context → Run
route_loop terms g [] run ctx = run
route_loop terms g (order ∷ rest) run ctx = elim (poll ctx) [
  | none ↦ run
  | some (_, ctx1) ↦ elim (is_used order.uid run.matched) [
    | true ↦ route_loop terms g rest run ctx1
    | false ↦ elim (route_order order g terms.cfg ctx1) [
      | none ↦ run
      | some (outcome, ctx2) ↦ route_loop terms g rest (take_outcome terms outcome run) ctx2
    ]
  ]
]

-- At most `MaxSolutions`, the nil slice if that is not positive.
unfoldable pub cap : ℤ → List Solution → Option (List Solution)
cap max solutions =
    if non_positive max
    then none
    else if ltb_ℤ max (pos (length solutions))
    then some (take (abs max) solutions)
    else appended_slice solutions

-- The statistics before the orders are read.
abbrev pub pool_stats : Built → Stats
pool_stats built = record {
  orders = 0;
  pools_usable = length built.pools;
  pools_skipped = built.skips;
  cow_matches = 0;
  baseline_routes = 0;
  dropped_unsupported_order = 0;
  dropped_no_route = 0;
  dropped_limit = 0;
  dropped_not_profitable = 0;
  candidate_solutions = 0;
  solutions = 0;
}

abbrev pub no_solutions : Built → SolveResult
no_solutions built = record { solutions = none; stats = pool_stats built }

-- The run before the passes.
abbrev pub start_run : Built → List Order → ℕ → Run
start_run built orders unsupported = record {
  solutions = [];
  id = 0;
  matched = [];
  stats = record (pool_stats built) {
    orders = length orders;
    dropped_unsupported_order = unsupported;
  };
}

-- The two passes over the eligible orders.
unfoldable pub run_passes : Terms → Graph → List Order → Run → Context → Run
run_passes terms g orders run ctx =
    let (matches, ctx1) = find_matches orders ctx in
    let (run1, ctx2) = match_loop terms matches run ctx1 in route_loop terms g orders run1 ctx2

-- The result of a run.
abbrev pub finish : Config → Run → SolveResult
finish cfg run =
    let capped = cap cfg.max_solutions run.solutions in
    record {
      solutions = capped;
      stats = record run.stats {
        candidate_solutions = length run.solutions;
        solutions = length (or_nil capped);
      };
    }

-- The body of `Solve` after the checks of the context.
unfoldable pub solve_orders : Auction → Config → Built → Context → SolveResult
solve_orders auction cfg built ctx =
    let (orders, unsupported) = eligible (or_nil auction.orders) cfg.max_orders in
    let terms : Terms = record {
      cfg = cfg;
      gas_price = gas_price_of auction.effective_gas_price;
      tokens = or_nil auction.tokens;
    } in
    finish cfg
      (run_passes terms (new_graph built.pools) orders (start_run built orders unsupported) ctx)

unfoldable pub solve : Context → Auction → Config → SolveResult
solve ctx auction cfg =
    let cfg1 = with_defaults cfg in
    let built = build_pools (or_nil auction.liquidity) cfg1.max_pools ctx in
    elim (poll built.left) [
      | none ↦ no_solutions built
      | some (_, ctx1) ↦ elim (poll ctx1) [
        | none ↦ no_solutions built
        | some (_, ctx2) ↦ solve_orders auction cfg1 built ctx2
      ]
    ]
