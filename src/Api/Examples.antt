-- ===== src/Api/Examples.antt =====
-- Runs of the decoders on small documents.
use aladdin_solver_engine.Prelude.{
  All, Option, Result, Text, [], codes, false, map_delete, map_get, mem_text, none, ok,
  parse_digits, parse_int, pos, refl, some, text_eq, true, ℤ, ◌∷◌, ◌≡◌,
}
use aladdin_solver_engine.Json.{Json, arr, item, items_of, no_items, null, num, str}
use aladdin_solver_engine.Contract.{Object, decode_uint64}
use aladdin_solver_engine.Contract.Notification.{parse_int64}
use aladdin_solver_engine.Amm.Decimal.{all_digits}
use aladdin_solver_engine.Solve.Order.{Order, sell_kind}
use aladdin_solver_engine.Solve.Engine.{Auction, or_nil}
use aladdin_solver_engine.Api.Notification.Kinds.{
  notification_required_field, notification_string_field, validate_notification_kind,
}
use aladdin_solver_engine.Api.Notification.{
  Notification, decode_ids, new_merged, read_auction_id, read_fields, read_kind, read_solution_id,
  unmarshal_solution_id,
}
use aladdin_solver_engine.Api.Notification.RoundTrip.{IsReread, read_fields-IsReread}
use aladdin_solver_engine.Api.Auction.{
  bound_orders, bound_tokens, unmarshal_auction, valid_decimal_u256,
}
use aladdin_solver_engine.Api.Auction.Bounds.{HasAmounts, unmarshal_auction-HasAmounts}
use aladdin_solver_engine.Server.{valid_u256}

abbrev settlement : Object
settlement =
    (codes "auctionId", str (codes "7"))
    ∷ (codes "kind", str (codes "driverError"))
    ∷ (codes "reason", str (codes "late"))
    ∷ (codes "solutionId", arr (item (num (codes "3")) (item (num (codes "5")) no_items)))
    ∷ []

abbrev read_settlement : Notification
read_settlement = record {
  auction_id = some (codes "7");
  solution_id = some (record { single = none; merged = some (3 ∷ 5 ∷ []) });
  kind = codes "driverError";
  extra = (codes "reason", str (codes "late")) ∷ [];
}

settlement_read : read_fields settlement ≡ ok read_settlement
unfolding read_fields read_auction_id read_solution_id read_kind unmarshal_solution_id decode_ids
    decode_uint64 new_merged items_of parse_int64 parse_int parse_digits map_get map_delete text_eq
    validate_notification_kind mem_text notification_string_field notification_required_field
settlement_read = refl

read_fields-IsReread_example : IsReread read_settlement
read_fields-IsReread_example = read_fields-IsReread settlement read_settlement settlement_read

abbrev small_order : Order
small_order = record {
  uid = codes "u1";
  sell_token = codes "0xA";
  buy_token = codes "0xB";
  sell_amount = codes "100";
  full_sell_amount = codes "100";
  buy_amount = codes "200";
  full_buy_amount = codes "200";
  fee_policies = [];
  valid_to = pos 4000;
  kind = sell_kind;
  receiver = [];
  owner = [];
  partially_fillable = false;
  pre_interactions = [];
  post_interactions = [];
  sell_token_source = [];
  buy_token_dest = [];
  class = [];
  app_data = [];
  flashloan_hint = [];
  wrappers = [];
  signing_scheme = [];
  signature = [];
}

abbrev small_auction : Auction
small_auction = record {
  id = some (codes "7");
  tokens = some [];
  orders = some (small_order ∷ []);
  liquidity = some [];
  effective_gas_price = codes "1";
  deadline = codes "soon";
  surplus_capturing_jit_order_owner = some [];
}

-- Stand-ins for what is given.
abbrev stored : Json → Result Auction
stored j = ok small_auction

abbrev one_second : Text → Option ℤ
one_second deadline = some (pos 1_000_000_000)

auction_read : unmarshal_auction stored one_second null ≡ ok small_auction
unfolding unmarshal_auction valid_decimal_u256 all_digits parse_int parse_digits parse_int64
    bound_tokens bound_orders
auction_read = refl

unmarshal_auction-HasAmounts_example :
    (valid_u256 small_auction.effective_gas_price true ≡ true)
    × All HasAmounts (or_nil small_auction.orders)
    × ((time : ℤ) × (one_second small_auction.deadline ≡ some time))
unmarshal_auction-HasAmounts_example =
    unmarshal_auction-HasAmounts stored one_second null small_auction auction_read
