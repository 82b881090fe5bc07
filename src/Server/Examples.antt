-- ===== src/Server/Examples.antt =====
-- Runs of the solver, the server and the recorder on small inputs.
use aladdin_solver_engine.Server.Budget.{HasTime, budget_of-HasTime}
use aladdin_solver_engine.Prelude.{
  All, List, Option, Result, Text, [], all_distinct, arith, codes, duplicate_key, equal_fold, err,
  false, if◌then◌else◌, keys, length, map, map_put, mem_text, neg_ℤ, non_positive, none, ok,
  parse_digits, parse_int, pos, refl, some, sort_texts, text_eq, text_ltb, to_lower, trim_left,
  trim_right, trim_space, true, ℕ, ℤ, ◌*◌, ◌+◌, ◌^◌, ◌↔◌, ◌∷◌, ◌≡◌,
}
use aladdin_solver_engine.Json.{
  Json, add_fields, arr, field, item, items_of, no_fields, no_items, null, obj, str,
}
use aladdin_solver_engine.Json.Walk.{validate_unique_json}
use aladdin_solver_engine.Json.Walk.Unique.{unique, validate_unique_json-unique}
use aladdin_solver_engine.Contract.Response.{validate_solve_response_json}
use aladdin_solver_engine.Amm.Decimal.{
  all_digits, cut_point, has_exponent, parse_decimal_rational, rational_of,
}
use aladdin_solver_engine.Amm.Decimal.Reads.{decimal_text, parse_decimal_rational-reads, reads}
use aladdin_solver_engine.Amm.Pool.{Pool, constant_product_kind}
use aladdin_solver_engine.Solve.Context.{background, fold_timed, poll}
use aladdin_solver_engine.Solve.Liquidity.{
  Liquidity, addresses_of, decimal_digits, decode_entries, decode_reserve, decode_reserves,
  not_a_decimal, parse_positive_unsigned, parse_uint64, reserve_at, string_member,
}
use aladdin_solver_engine.Solve.Order.{Order, Solution, eligible, eligible_loop, sell_kind}
use aladdin_solver_engine.Solve.Cow.{find_matches, match_keys, sorted_keys}
use aladdin_solver_engine.Solve.RouteOrder.{default_config}
use aladdin_solver_engine.Solve.Pools.{
  base_pool, build_constant_product, build_kind, build_loop, build_pool, build_pools, parse_fee,
  parse_gas,
}
use aladdin_solver_engine.Solve.Pools.Count.{accounted, build_pools-accounted}
use aladdin_solver_engine.Solve.Pools.Fees.{IsPriced, build_pool-IsPriced}
use aladdin_solver_engine.Solve.Engine.{
  Auction, cap, match_loop, or_nil, route_loop, run_passes, solve, solve_orders, with_defaults,
}
use aladdin_solver_engine.Solve.Engine.Answer.{
  IsCounted, IsServable, counting, solve-IsCounted, solve-ids, solve-valid,
}
use aladdin_solver_engine.Api.Encode.{encode_response}
use aladdin_solver_engine.Api.Encode.Valid.{encode_response-valid}
use aladdin_solver_engine.Record.{Answers, AuctionRecord, Recorder, auctions_file, path_of, write}
use aladdin_solver_engine.Record.Recorded.{IsRecorded, write-IsRecorded}
use aladdin_solver_engine.Server.{
  check_liquidity, check_orders, check_tokens, has_digits, valid_u256, validate_auction,
}
use aladdin_solver_engine.Server.Accepted.{IsAccepted, uids, validate_auction-IsAccepted}
use aladdin_solver_engine.Server.Handlers.{
  Moment, budget_of, document, handle_solve, less_reserve, saturate,
}
use aladdin_solver_engine.Server.Replies.{Replies, handle_solve-Replies}

abbrev order_of : Text → Text → Text → Text → Text → Order
order_of uid sell buy sell_amount buy_amount = record {
  uid = uid;
  sell_token = sell;
  buy_token = buy;
  sell_amount = sell_amount;
  full_sell_amount = sell_amount;
  buy_amount = buy_amount;
  full_buy_amount = buy_amount;
  fee_policies = [];
  valid_to = pos 0;
  kind = sell_kind;
  receiver = [];
  owner = [];
  partially_fillable = false;
  pre_interactions = [];
  post_interactions = [];
  sell_token_source = [];
  buy_token_dest = [];
  class = [];
  app_data = [];
  flashloan_hint = [];
  wrappers = [];
  signing_scheme = [];
  signature = [];
}

-- Two orders that match.
abbrev pair_of_orders : List Order
pair_of_orders =
    order_of (codes "u1") (codes "0xA") (codes "0xB") (codes "100") (codes "200")
    ∷ order_of (codes "u2") (codes "0xB") (codes "0xA") (codes "210") (codes "90")
    ∷ []

-- A source of liquidity between the two tokens.
abbrev source : Liquidity
source = record {
  kind = constant_product_kind;
  id = codes "0";
  address = codes "0xC";
  gas_estimate = codes "0";
  tokens = some (
      obj (
        field (codes "0xA") (obj (field (codes "balance") (str (codes "1000")) no_fields)) (
          field (codes "0xB") (obj (field (codes "balance") (str (codes "2000")) no_fields))
            no_fields)));
  fee = codes "0.003";
  router = [];
  amplification_parameter = [];
  balancer_pool_id = [];
  version = [];
  sqrt_price = [];
  liquidity = [];
  tick = none;
  liquidity_net = [];
  hash = [];
  maker_token = [];
  taker_token = [];
  maker_amount = [];
  taker_amount = [];
  taker_token_fee_amount = [];
}

abbrev auction : Auction
auction = record {
  id = some (codes "7");
  tokens = some [];
  orders = some pair_of_orders;
  liquidity = some (source ∷ []);
  effective_gas_price = codes "1";
  deadline = codes "soon";
  surplus_capturing_jit_order_owner = some [];
}

build_pools-accounted_example :
    accounted (build_pools (source ∷ source ∷ []) (pos 1) background)
    ≡ length (source ∷ source ∷ [])
build_pools-accounted_example = build_pools-accounted (source ∷ source ∷ []) (pos 1) background

abbrev built_pool : Pool
built_pool = record (base_pool source 90_000 (pos 3) (pos 1000)) {
  token_a = codes "0xa";
  token_b = codes "0xb";
  reserve_a = some (pos 1000);
  reserve_b = some (pos 2000);
}

pool_built : build_pool source ≡ ok built_pool
unfolding build_pool parse_fee parse_gas build_kind build_constant_product not_a_decimal trim_space
    text_eq parse_decimal_rational has_exponent rational_of cut_point all_digits parse_int
    parse_digits decimal_digits parse_uint64 decode_reserves decode_entries add_fields map_put
    decode_reserve items_of all_distinct mem_text sort_texts equal_fold text_ltb to_lower trim_left
    trim_right addresses_of parse_positive_unsigned reserve_at string_member
pool_built = refl

build_pool-IsPriced_example : IsPriced source built_pool
build_pool-IsPriced_example = build_pool-IsPriced source built_pool pool_built

solve-valid_example : IsServable (solve (some 9) auction default_config).solutions
solve-valid_example = solve-valid (some 9) auction default_config

solve-IsCounted_example : IsCounted (pos 40) (solve background auction default_config)
solve-IsCounted_example = solve-IsCounted background auction default_config

solve-ids_example :
    map (λ s. Solution.id s) (or_nil (solve background auction default_config).solutions)
    ≡ counting 0 (length (or_nil (solve background auction default_config).solutions))
solve-ids_example = solve-ids background auction default_config refl

auction_accepted : validate_auction auction ≡ ok tt
unfolding validate_auction check_tokens check_orders check_liquidity valid_u256 has_digits
    all_digits parse_int parse_digits mem_text text_eq to_lower
auction_accepted = refl

validate_auction-IsAccepted_example :
    (orders : List Order) × (auction.orders ≡ some orders)
    × All IsAccepted orders
    × (all_distinct (uids orders) ≡ true)
validate_auction-IsAccepted_example = validate_auction-IsAccepted auction auction_accepted

abbrev recorder : Recorder
recorder = record {
  dir = codes "log";
  day = codes "2026-08-16";
  auctions = some (path_of (codes "log") auctions_file (codes "2026-08-16"));
  notifs = none;
  keep_auctions = true;
}

-- The next day's file cannot be written to the end.
abbrev answers : Answers
answers = record {
  closing = record { close_auctions = none; close_notifs = none };
  open_file = none;
  chmod = none;
  written = 1;
  write_error = none;
  close_failed = none;
}

write-IsRecorded_example :
    IsRecorded auctions_file
      (codes "2026-08-17")
      (codes "{}")
      recorder
      (write answers auctions_file (codes "2026-08-17") (codes "{}") recorder)
write-IsRecorded_example =
    write-IsRecorded answers auctions_file (codes "2026-08-17") (codes "{}") recorder (refl, tt)

abbrev moment : Moment
moment = record {
  now = pos 0;
  elapsed_ms = pos 3;
  timestamp = codes "now";
  day = codes "2026-08-17";
  answers = answers;
}

-- Stand-ins for what is given: every document is the auction, every record the bytes of its schema.
abbrev read_any : Json → Result Auction
read_any j = ok auction

abbrev schema_only : AuctionRecord → Result (List ℕ)
schema_only r = ok r.schema

abbrev always : Text → Option ℤ
always deadline = some (pos 1_000_000_000)

handle_solve-Replies_example :
    Replies
      (document (some null))
      (handle_solve read_any schema_only always moment default_config
        (document (some null))
        background
        (some recorder)).0
handle_solve-Replies_example =
    handle_solve-Replies read_any schema_only always moment default_config (document (some null))
      background (some recorder)

abbrev settled : Solution
settled = record {
  id = 0;
  prices = (codes "0xb", codes "100") ∷ (codes "0xa", codes "210") ∷ [];
  trades =
      record {
        kind = codes "fulfillment";
        order = codes "u1";
        executed_amount = codes "100";
        fee = [];
      }
      ∷ [];
  interactions = [];
  gas = 0;
}

settled_distinct : all_distinct (keys settled.prices) ≡ true
unfolding all_distinct mem_text text_eq
settled_distinct = refl

encode_response-valid_example :
    validate_solve_response_json (some (encode_response (some (settled ∷ [])))) ≡ ok tt
encode_response-valid_example =
    encode_response-valid (settled ∷ []) ((settled_distinct, (refl, tt), tt), tt)

abbrev twice : Json
twice = obj (field (codes "a") (arr (item null no_items)) (field (codes "a") null no_fields))

validate_unique_json-unique_example :
    validate_unique_json (some twice) ≡ (if unique twice then ok tt else err duplicate_key)
validate_unique_json-unique_example = validate_unique_json-unique twice

twelve : all_digits (codes "12") ≡ true
unfolding all_digits
twelve = refl

five : all_digits (codes "5") ≡ true
unfolding all_digits
five = refl

-- -12.5
parse_decimal_rational-reads_example :
    parse_decimal_rational (decimal_text true (codes "12") (codes "5"))
    ≡ ok (neg_ℤ (pos (reads (codes "12") 0 * 10 ^ 1 + reads (codes "5") 0)), pos (10 ^ 1))
parse_decimal_rational-reads_example =
    parse_decimal_rational-reads true b'1' (codes "2") (codes "5") twelve five (omega arith)

-- A tenth of a second is left.
budget_of-HasTime_example :
    (non_positive (budget_of (pos 100_000_000) (pos 0)) ≡ false) ↔ HasTime (pos 100_000_000)
budget_of-HasTime_example = budget_of-HasTime (pos 100_000_000) (pos 0)

-- The year 1 seen from the year 2026 leaves the solver some 292 years.
ancient_deadline : non_positive (budget_of (pos 0) (pos 63_900_000_000_000_000_000)) ≡ false
unfolding budget_of less_reserve saturate
ancient_deadline = refl

abbrev empty_auction : Auction
empty_auction = record auction { orders = some []; liquidity = none }

-- Without orders the solutions are the nil slice, which the handler replaces.
nil_solutions : (solve background empty_auction default_config).solutions ≡ none
unfolding solve with_defaults build_pools build_loop solve_orders eligible eligible_loop run_passes
    find_matches fold_timed match_loop route_loop cap poll match_keys sorted_keys
nil_solutions = refl
