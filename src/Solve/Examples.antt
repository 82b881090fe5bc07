-- ===== src/Solve/Examples.antt =====
-- Runs of the searches on small auctions.
use mathlib.Core.Path.{subst}
use aladdin_solver_engine.Solve.Order.Selection.{IsSelection, eligible-IsSelection}
use aladdin_solver_engine.Solve.Order.{
  Order, amounts_of, buy_kind, eligible, eligible_loop, has_non_null_json, is_unsupported,
  sell_kind,
}
use aladdin_solver_engine.Solve.RouteOrder.{
  Routed, default_config, hops_to_interactions, reason_ok, route_order, route_sell, settle,
  trade_of,
}
use aladdin_solver_engine.Solve.RouteOrder.Limits.{Respects, route_order-Respects}
use aladdin_solver_engine.Prelude.{
  ==_iff, Bool-cases, List, Text, [], arith, codes, digits, equal_fold, false, inl, inr, leb_ℤ,
  length, none, parse_digits, parse_int, pos, refl, show_int, some, sym, take, text_eq, text_ltb,
  to_lower, trim_left, trim_right, trim_space, true, ℕ, ◌<◌, ◌==◌, ◌∙◌, ◌∷◌, ◌≡◌, ◌≤◌, ◌⊎◌,
}
use aladdin_solver_engine.Amm.Examples.{gold, pair, silver}
use aladdin_solver_engine.Amm.Constant.{quote_constant_product}
use aladdin_solver_engine.Amm.Quote.{quote_exact_in_pair}
use aladdin_solver_engine.Amm.U256.{add_u256, div_down_u256, is_u256, mul_u256, sub_u256}
use aladdin_solver_engine.Amm.Pool.{all_tokens, require_u256, supports}
use aladdin_solver_engine.Solve.Context.{background, fold_timed, poll, timed-injective}
use aladdin_solver_engine.Solve.Gas.{max_u64, sum_gas, sum_gas-total, total}
use aladdin_solver_engine.Solve.Route.{
  Graph, Route, add_entry, add_tokens, before, best_route, better, connected, index_pools,
  new_graph, one_hop, pools_for, pools_of, search_routes, sort_tokens, try_direct, try_mid,
}
use aladdin_solver_engine.Solve.Route.Best.{Every}
use aladdin_solver_engine.Solve.Route.Candidates.{IsRoute}
use aladdin_solver_engine.Solve.Route.Optimal.{NoBetter, best_route-IsRoute}
use aladdin_solver_engine.Solve.Route.Deadline.{best_route-background}
use aladdin_solver_engine.Solve.MinInput.{enough, min_input_for, min_loop, narrow}
use aladdin_solver_engine.Solve.MinInput.Bisect.{Attains, Found}
use aladdin_solver_engine.Solve.MinInput.Smallest.{min_input_for-Found, min_input_for_minimal}
use aladdin_solver_engine.Solve.Order.{
  Order, amounts_of, buy_kind, eligible, eligible_loop, has_non_null_json, is_unsupported,
  sell_kind,
}
use aladdin_solver_engine.Solve.Cow.{
  add_order, crosses, fill_bucket, find_cow_matches, find_matches, find_partner, insert_key,
  is_used, key_before, key_eq, match_keys, match_orders, orders_at, sorted_keys,
}

sum_gas-total_example :
    ((total (106_000 ∷ 60_000 ∷ []) ≤ max_u64)
      × (sum_gas (106_000 ∷ 60_000 ∷ []) ≡ some (total (106_000 ∷ 60_000 ∷ []))))
    ⊎ ((max_u64 < total (106_000 ∷ 60_000 ∷ [])) × (sum_gas (106_000 ∷ 60_000 ∷ []) ≡ none))
sum_gas-total_example = sum_gas-total (106_000 ∷ 60_000 ∷ [])

abbrev lower_gold : Text
lower_gold = codes "0xa"

abbrev lower_silver : Text
lower_silver = codes "0xb"

abbrev market : Graph
market = record {
  by_token =
      (lower_gold, record { address = 0; pool = pair } ∷ [])
      ∷ (lower_silver, record { address = 0; pool = pair } ∷ [])
      ∷ [];
  intermediates = [];
}

market_built : new_graph (pair ∷ []) ≡ market
unfolding new_graph index_pools sort_tokens add_tokens connected add_entry all_tokens text_eq
    equal_fold to_lower pools_of before text_ltb
market_built = refl

abbrev two_for_three : Route
two_for_three = one_hop pair lower_gold lower_silver (pos 2) (pos 3)

best_of_two : best_route market gold silver (pos 2) (some 5) ≡ some (some two_for_three, some 1)
unfolding best_route search_routes fold_timed try_direct try_mid pools_for pools_of poll supports
    all_tokens quote_exact_in_pair quote_constant_product require_u256 is_u256 equal_fold text_eq
    to_lower sub_u256 mul_u256 add_u256 div_down_u256 better
best_of_two = refl

best_route-IsRoute_example :
    Every (IsRoute lower_gold lower_silver (pos 2)) (some two_for_three)
    × NoBetter market lower_gold lower_silver (pos 2) (some two_for_three)
unfolding text_eq to_lower
best_route-IsRoute_example =
    best_route-IsRoute market gold silver (pos 2) (some two_for_three) (some 5) (some 1) refl refl
      best_of_two

best_route-background_example :
    best_route market gold silver (pos 2) background ≡ some (some two_for_three, background)
best_route-background_example =
    best_route-background market gold silver (pos 2) (some two_for_three) (some 5) (some 1)
      best_of_two

least_for_two :
    min_input_for market gold silver (pos 2) (pos 2) background
    ≡ some (some (pos 2, two_for_three), background)
unfolding min_input_for min_loop enough narrow best_route search_routes fold_timed try_direct
    try_mid pools_for pools_of poll supports all_tokens quote_exact_in_pair quote_constant_product
    require_u256 is_u256 equal_fold text_eq to_lower sub_u256 mul_u256 add_u256 div_down_u256 better
least_for_two = refl

min_input_for-Found_example : Found (best_route market gold silver) (pos 2) 2 (pos 2) two_for_three
min_input_for-Found_example =
    min_input_for-Found market gold silver (pos 2) 2 (pos 2) two_for_three background background
      (omega arith) (omega arith) least_for_two

best_of_none : best_route market gold silver (pos 0) background ≡ some (none, background)
unfolding best_route search_routes fold_timed try_direct try_mid pools_for pools_of poll supports
    all_tokens quote_exact_in_pair quote_constant_product require_u256 is_u256 equal_fold text_eq
    to_lower sub_u256 mul_u256 add_u256 div_down_u256 better
best_of_none = refl

market_grows :
    (a b : ℕ) (s : Route)
    → a ≤ b
    → b ≤ 2
    → Attains (best_route market gold silver) (pos 2) a s
    → (t : Route) × Attains (best_route market gold silver) (pos 2) b t
market_grows a b s le small at = elim (Bool-cases (b == 2)) [
  | inl two ↦
      let e : b ≡ 2 = (==_iff b 2).0 two in
      (
        two_for_three,
        subst (λ n. Attains (best_route market gold silver) (pos 2) n two_for_three) (sym e)
            (
              best_route-background market gold silver (pos 2) (some two_for_three) (some 5)
                  (some 1) best_of_two,
              refl,
            ),
      )
  | inr less ↦ elim (Bool-cases (a == b)) [
    | inl same ↦
        let e : a ≡ b = (==_iff a b).0 same in
        (s, subst (λ n. Attains (best_route market gold silver) (pos 2) n s) e at)
    | inr differ ↦
        let e : a ≡ 0 = ground arith in
        let at0 = subst (λ n. Attains (best_route market gold silver) (pos 2) n s) e at in
        let clash = timed-injective _ _ _ _ (sym best_of_none ∙ at0.0) in cc
  ]
]

min_input_for_minimal_example : leb_ℤ (pos 2) (pos 2) ≡ true
min_input_for_minimal_example =
    min_input_for_minimal market gold silver (pos 2) 2 (pos 2) two_for_three background background
      (omega arith) (omega arith) least_for_two market_grows 2 two_for_three (omega arith)
      (
        best_route-background market gold silver (pos 2) (some two_for_three) (some 5) (some 1)
            best_of_two,
        refl,
      )

abbrev order_of : Text → Text → Text → Text → Text → Order
order_of uid sell buy sell_amount buy_amount = record {
  uid = uid;
  sell_token = sell;
  buy_token = buy;
  sell_amount = sell_amount;
  full_sell_amount = sell_amount;
  buy_amount = buy_amount;
  full_buy_amount = buy_amount;
  fee_policies = [];
  valid_to = pos 0;
  kind = sell_kind;
  receiver = [];
  owner = [];
  partially_fillable = false;
  pre_interactions = [];
  post_interactions = [];
  sell_token_source = [];
  buy_token_dest = [];
  class = [];
  app_data = [];
  flashloan_hint = [];
  wrappers = [];
  signing_scheme = [];
  signature = [];
}

abbrev opposite_orders : List Order
opposite_orders =
    order_of (codes "u1") gold silver (codes "100") (codes "200")
    ∷ order_of (codes "u2") silver gold (codes "210") (codes "90")
    ∷ []

cow_run : length (find_cow_matches opposite_orders background) ≡ 1
unfolding find_matches fold_timed fill_bucket add_order key_eq insert_key key_before sorted_keys
    match_keys match_orders find_partner orders_at is_used crosses amounts_of parse_int parse_digits
    poll text_eq text_ltb to_lower
cow_run = refl

abbrev small_order : Order
small_order = order_of (codes "u3") gold silver (codes "2") (codes "2")

abbrev small_routed : Routed
small_routed = record {
  solution = record {
    id = 0;
    prices = (lower_gold, codes "3") ∷ (lower_silver, codes "2") ∷ [];
    trades = trade_of (codes "u3") (pos 2) ∷ [];
    interactions =
        record {
          kind = codes "liquidity";
          id = codes "1";
          input_token = lower_gold;
          output_token = lower_silver;
          input_amount = codes "2";
          output_amount = codes "3";
          internalize = false;
        }
        ∷ [];
    gas = 256_000;
  };
  surplus = pos 1;
  surplus_token = lower_silver;
  gas = 256_000;
}

small_amounts : amounts_of small_order ≡ some (pos 2, pos 2)
unfolding amounts_of parse_int parse_digits
small_amounts = refl

small_run :
    route_order small_order market default_config background
    ≡ some (reason_ok small_routed, background)
unfolding route_order route_sell settle sum_gas hops_to_interactions show_int digits amounts_of
    parse_int parse_digits best_route search_routes fold_timed try_direct try_mid pools_for pools_of
    poll supports all_tokens quote_exact_in_pair quote_constant_product require_u256 is_u256
    equal_fold text_eq to_lower sub_u256 mul_u256 add_u256 div_down_u256 better
small_run = refl

route_order-Respects_example :
    Respects
      (text_eq sell_kind buy_kind)
      (codes "u3")
      (to_lower gold)
      (to_lower silver)
      2
      2
      small_routed
route_order-Respects_example =
    route_order-Respects small_order market default_config 2 2 small_routed background background
      small_amounts (omega arith) (omega arith) small_run

-- An order with a wrapper before the two.
abbrev wrapped_first : List Order
wrapped_first = record small_order { wrappers = codes "{}" ∷ [] } ∷ opposite_orders

wrapped_refused : eligible wrapped_first (pos 1) ≡ (take 1 opposite_orders, 1)
unfolding eligible eligible_loop is_unsupported has_non_null_json trim_space trim_left trim_right
    equal_fold text_eq to_lower
wrapped_refused = refl

eligible-IsSelection_example : IsSelection (pos 1) wrapped_first (eligible wrapped_first (pos 1))
eligible-IsSelection_example = eligible-IsSelection wrapped_first (pos 1)
