-- ===== src/Server.antt =====
-- internal/server/server.go: what is asked of an auction beyond its JSON, and the two handlers.
pub mod Accepted
pub mod Handlers
pub mod Replies
pub mod Budget
mod Examples
use aladdin_solver_engine.Prelude.{
  Bool, List, Option, Result, Text, [], bit_len_exceeds, duplicate_liquidity_id, duplicate_order,
  duplicate_token, err, fail_if, false, invalid_auction_collection, invalid_gas_price,
  invalid_liquidity_id, invalid_order, invalid_token, is_empty, length, ltb, mem_text, negative,
  non_positive, none, not, ok, parse_int, some, to_lower, true, ℕ, ◌&&◌, ◌>>=◌, ◌>>◌, ◌||◌, ◌∷◌,
}
use aladdin_solver_engine.Amm.Decimal.{all_digits}
use aladdin_solver_engine.Solve.Liquidity.{Liquidity}
use aladdin_solver_engine.Solve.Order.{Order}
use aladdin_solver_engine.Solve.Profit.{TokenInfo}
use aladdin_solver_engine.Solve.Engine.{Auction}

-- `decimalDigits`.
unfoldable pub has_digits : Text → ℕ → Bool
has_digits raw max = not (is_empty raw || ltb max (length raw)) && all_digits raw

unfoldable pub valid_u256 : Text → Bool → Bool
valid_u256 raw allow_zero = has_digits raw 78 && elim (parse_int raw) [
  | none ↦ false
  | some value ↦
      not (negative value || bit_len_exceeds value 256) && (allow_zero || not (non_positive value))
]

-- The loop over the tokens, over the addresses seen.
unfoldable pub check_tokens : List (Text × TokenInfo) → List Text → Result (Unit {0})
check_tokens [] seen = ok tt
check_tokens ((address, token) ∷ rest) seen = do
  let normalized = to_lower address
  fail_if (is_empty normalized || not (valid_u256 token.available_balance true)) invalid_token
  fail_if (mem_text normalized seen) duplicate_token
  fail_if (not (is_empty token.reference_price) && not (valid_u256 token.reference_price true))
      invalid_token
  check_tokens rest (normalized ∷ seen)

abbrev pub lacks_fields : Order → Bool
lacks_fields order =
    is_empty order.uid
    || is_empty order.sell_token
    || is_empty order.buy_token
    || not (valid_u256 order.sell_amount false)
    || not (valid_u256 order.buy_amount false)
    || not (valid_u256 order.full_buy_amount false)

-- The loop over the orders, over the identifiers seen.
unfoldable pub check_orders : List Order → List Text → Result (Unit {0})
check_orders [] seen = ok tt
check_orders (order ∷ rest) seen = do
  fail_if (lacks_fields order) invalid_order
  fail_if (not (is_empty order.full_sell_amount) && not (valid_u256 order.full_sell_amount false))
      invalid_order
  let uid = to_lower order.uid
  fail_if (mem_text uid seen) duplicate_order
  check_orders rest (uid ∷ seen)

-- The loop over the sources of liquidity, over the identifiers seen.
unfoldable pub check_liquidity : List Liquidity → List Text → Result (Unit {0})
check_liquidity [] seen = ok tt
check_liquidity (l ∷ rest) seen = do
  fail_if (is_empty l.id) invalid_liquidity_id
  fail_if (mem_text l.id seen) duplicate_liquidity_id
  check_liquidity rest (l.id ∷ seen)

-- A collection that is nil is refused.
abbrev pub or_nil_error {ℓ} : {A : Type ℓ} → Option A → Result A
or_nil_error none = err invalid_auction_collection
or_nil_error (some xs) = ok xs

unfoldable pub validate_auction : Auction → Result (Unit {0})
validate_auction auction = do
  tokens ← or_nil_error auction.tokens
  orders ← or_nil_error auction.orders
  liquidity ← or_nil_error auction.liquidity
  owners ← or_nil_error auction.surplus_capturing_jit_order_owner
  fail_if (not (valid_u256 auction.effective_gas_price true)) invalid_gas_price
  _ ← check_tokens tokens []
  _ ← check_orders orders []
  check_liquidity liquidity []
