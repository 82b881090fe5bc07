-- ===== src/Api/Auction.antt =====
-- internal/api/auction_validation.go: the bounds on the numbers of an auction. What json.Unmarshal
-- makes of the fields and what time.Parse makes of a deadline are given.
pub mod Bounds
use aladdin_solver_engine.Prelude.{
  Bool, List, Option, Result, Text, [], bit_len_exceeds, fail_if, false, invalid_deadline,
  invalid_gas_price, invalid_integer, invalid_order, invalid_token, is_empty, length, ltb, ltb_ℤ,
  negative, non_positive, none, not, ok, parse_int, pos, some, true, ℕ, ℤ, ◌&&◌, ◌-◌, ◌>>=◌, ◌>>◌,
  ◌^◌, ◌||◌, ◌∷◌,
}
use aladdin_solver_engine.Json.{Json}
use aladdin_solver_engine.Amm.Decimal.{all_digits}
use aladdin_solver_engine.Contract.Notification.{parse_int64}
use aladdin_solver_engine.Solve.Order.{Order}
use aladdin_solver_engine.Solve.Profit.{TokenInfo}
use aladdin_solver_engine.Solve.Engine.{Auction, or_nil}
use aladdin_solver_engine.Api.Notification.Kinds.{or_error}

unfoldable pub valid_decimal_u256 : Text → Bool → Bool
valid_decimal_u256 raw allow_zero =
    not (is_empty raw || ltb 78 (length raw)) && all_digits raw && elim (parse_int raw) [
      | none ↦ false
      | some value ↦
          not (negative value || bit_len_exceeds value 256)
          && (allow_zero || not (non_positive value))
    ]

abbrev pub beyond : ℕ → ℤ → Bool
beyond max v = negative v || ltb_ℤ (pos max) v

abbrev decimals_beyond : Option ℤ → Bool
decimals_beyond none = false
decimals_beyond (some v) = beyond 255 v

-- The loop over the tokens.
unfoldable pub bound_tokens : List (Text × TokenInfo) → Result (Unit {0})
bound_tokens [] = ok tt
bound_tokens ((address, token) ∷ rest) = do
  fail_if (decimals_beyond token.decimals) invalid_token
  fail_if (not (valid_decimal_u256 token.available_balance true)) invalid_token
  fail_if
      (not (is_empty token.reference_price) && not (valid_decimal_u256 token.reference_price true))
      invalid_token
  bound_tokens rest

-- One of the four amounts is not a positive number.
abbrev pub amount_beyond : Order → Bool
amount_beyond order =
    not (valid_decimal_u256 order.sell_amount false)
    || not (valid_decimal_u256 order.full_sell_amount false)
    || not (valid_decimal_u256 order.buy_amount false)
    || not (valid_decimal_u256 order.full_buy_amount false)

-- The loop over the orders.
unfoldable pub bound_orders : List Order → Result (Unit {0})
bound_orders [] = ok tt
bound_orders (order ∷ rest) = do
  fail_if (amount_beyond order) invalid_order
  fail_if (beyond (2 ^ 32 - 1) order.valid_to) invalid_order
  bound_orders rest

abbrev pub bad_id : Option Text → Bool
bad_id none = false
bad_id (some s) = elim (parse_int64 s) [ none ↦ true | some v ↦ false ]

module _ (decode : Json → Result Auction) (parse_time : Text → Option ℤ) where
  -- `Auction.UnmarshalJSON`.
  unfoldable pub unmarshal_auction : Json → Result Auction
  unmarshal_auction j = do
    auction ← decode j
    fail_if (bad_id auction.id) invalid_integer
    fail_if (not (valid_decimal_u256 auction.effective_gas_price true)) invalid_gas_price
    _ ← or_error (parse_time auction.deadline) invalid_deadline
    _ ← bound_tokens (or_nil auction.tokens)
    _ ← bound_orders (or_nil auction.orders)
    ok auction
