-- ===== src/Amm/Constant.antt =====
-- internal/amm/amm.go, quoteConstantProduct: the quote of a constant-product pool.
pub mod Math
pub mod Quote
use aladdin_solver_engine.Prelude.{
  Result, Text, equal_fold, fail_if, if◌then◌else◌, invalid_pool_fee, leb_ℤ, no_liquidity,
  non_positive, ok, or_fail, ℤ, ◌>>=◌, ◌>>◌, ◌||◌,
}
use aladdin_solver_engine.Amm.U256.{add_u256, div_down_u256, mul_u256, sub_u256}
use aladdin_solver_engine.Amm.Pool.{Pool, require_u256}

-- The checked chain of the function, from the reserves on.
pub constant_product_out : ℤ → ℤ → ℤ → ℤ → ℤ → Result ℤ
constant_product_out reserve_in reserve_out fee_num fee_den amount_in = do
  fail_if (non_positive reserve_in || non_positive reserve_out) no_liquidity
  keep ← or_fail (sub_u256 fee_den fee_num) invalid_pool_fee
  fail_if (non_positive keep) invalid_pool_fee
  input_after_fee ← mul_u256 amount_in keep
  numerator ← mul_u256 input_after_fee reserve_out
  reserve_term ← mul_u256 reserve_in fee_den
  denominator ← or_fail (add_u256 reserve_term input_after_fee) no_liquidity
  fail_if (non_positive denominator) no_liquidity
  output ← or_fail (div_down_u256 numerator denominator) no_liquidity
  fail_if (non_positive output || leb_ℤ reserve_out output) no_liquidity
  ok output

unfoldable pub quote_constant_product : Pool → Text → ℤ → Result ℤ
unfolding constant_product_out
quote_constant_product p token_in amount_in = do
  reserve_a ← require_u256 p.reserve_a no_liquidity
  reserve_b ← require_u256 p.reserve_b no_liquidity
  fee_num ← require_u256 p.fee_num no_liquidity
  fee_den ← require_u256 p.fee_den no_liquidity
  fail_if (non_positive fee_den) no_liquidity
  let swapped = equal_fold token_in p.token_b
  let reserve_in = if swapped then reserve_b else reserve_a
  let reserve_out = if swapped then reserve_a else reserve_b
  constant_product_out reserve_in reserve_out fee_num fee_den amount_in
