-- ===== src/Amm/Swap.antt =====
-- internal/amm/amm.go, from computeSwapStep on: the price arithmetic of concentrated liquidity.
pub mod Laws
pub mod Math
pub mod Step
pub mod Consumed
pub mod Errors
use aladdin_solver_engine.Prelude.{
  Bool, Result, bit_len_exceeds, eqb_ℤ, fail_if, false, if◌then◌else◌, invalid_amount0_delta,
  invalid_fee_pips, invalid_liquidity, invalid_mul_div, is_zero, leb_ℤ, ltb_ℤ, negative,
  non_positive, not, ok, or_fail, pos, quo, sqrt_price_overflow, true, u256_overflow, ℕ, ℤ, ◌&&◌,
  ◌*ℤ◌, ◌+ℤ◌, ◌-◌, ◌>>=◌, ◌>>◌, ◌^◌, ◌||◌,
}
use aladdin_solver_engine.Amm.U256.{
  add_u256, div_down_u256, div_up_u256, is_u256, max_u256, quo_up, sub_u256,
}

abbrev pub q96 : ℕ
q96 = 2 ^ 96

abbrev pub max_u160 : ℕ
max_u160 = 2 ^ 160 - 1

abbrev pub million : ℕ
million = 1_000_000

unfoldable pub mul_div : ℤ → ℤ → ℤ → Result ℤ
mul_div a b denominator = do
  fail_if (not (is_u256 a && is_u256 b && is_u256 denominator) || non_positive denominator)
      invalid_mul_div
  let quotient = quo (a *ℤ b) denominator
  fail_if (not (is_u256 quotient)) u256_overflow
  ok quotient

unfoldable pub mul_div_up : ℤ → ℤ → ℤ → Result ℤ
mul_div_up a b denominator = do
  fail_if (not (is_u256 a && is_u256 b && is_u256 denominator) || non_positive denominator)
      invalid_mul_div
  let quotient = quo_up (a *ℤ b) denominator
  fail_if (not (is_u256 quotient)) u256_overflow
  ok quotient

-- `divUp`.
abbrev pub div_up : ℤ → ℤ → Result ℤ
div_up = div_up_u256

-- `amount0Delta` for `a <= b`; the other order swaps the two first.
pub amount0_between : ℤ → ℤ → ℤ → Bool → Result ℤ
amount0_between a b liquidity round_up = do
  fail_if (non_positive a || negative liquidity || bit_len_exceeds liquidity 128)
      invalid_amount0_delta
  let numerator1 = liquidity *ℤ pos q96
  fail_if (not (is_u256 numerator1)) u256_overflow
  numerator2 ← sub_u256 b a
  if round_up
      then (do intermediate ← mul_div_up numerator1 numerator2 b; div_up intermediate a)
      else (do intermediate ← mul_div numerator1 numerator2 b; div_down_u256 intermediate a)

unfoldable pub amount0_delta : ℤ → ℤ → ℤ → Bool → Result ℤ
unfolding amount0_between
amount0_delta a b liquidity round_up =
    if ltb_ℤ b a
    then amount0_between b a liquidity round_up
    else amount0_between a b liquidity round_up

pub amount1_between : ℤ → ℤ → ℤ → Bool → Result ℤ
amount1_between a b liquidity round_up = do
  delta ← sub_u256 b a
  if round_up then mul_div_up liquidity delta (pos q96) else mul_div liquidity delta (pos q96)

unfoldable pub amount1_delta : ℤ → ℤ → ℤ → Bool → Result ℤ
unfolding amount1_between
amount1_delta a b liquidity round_up =
    if ltb_ℤ b a
    then amount1_between b a liquidity round_up
    else amount1_between a b liquidity round_up

-- The price after an input of token 0: exact while the sums fit 256 bits.
pub next_sqrt_down : ℤ → ℤ → ℤ → Result ℤ
next_sqrt_down sqrt_price liquidity amount = do
  let numerator = liquidity *ℤ pos q96
  fail_if (not (is_u256 numerator)) u256_overflow
  let product = amount *ℤ sqrt_price
  let denominator = numerator +ℤ product
  if leb_ℤ product (pos max_u256) && leb_ℤ denominator (pos max_u256) && leb_ℤ numerator denominator
      then mul_div_up numerator sqrt_price denominator
      else (do
        base ← div_down_u256 numerator sqrt_price
        total ← add_u256 base amount
        div_up numerator total)

-- The price after an input of token 1.
pub next_sqrt_up : ℤ → ℤ → ℤ → Result ℤ
next_sqrt_up sqrt_price liquidity amount = do
  quotient ← mul_div amount (pos q96) liquidity
  next ← or_fail (add_u256 sqrt_price quotient) sqrt_price_overflow
  fail_if (ltb_ℤ (pos max_u160) next) sqrt_price_overflow
  ok next

unfoldable pub next_sqrt_from_input : ℤ → ℤ → ℤ → Bool → Result ℤ
unfolding next_sqrt_down next_sqrt_up
next_sqrt_from_input sqrt_price liquidity amount zero_for_one =
    if is_zero amount then ok sqrt_price else do
      fail_if (non_positive liquidity || bit_len_exceeds liquidity 128) invalid_liquidity
      if zero_for_one
          then next_sqrt_down sqrt_price liquidity amount
          else next_sqrt_up sqrt_price liquidity amount

-- What a step returns: the next price, the input and the output amount, and the fee.
pub record SwapStep : Type 0 where
  pub next : ℤ
  pub amount_in : ℤ
  pub amount_out : ℤ
  pub fee : ℤ

-- The input between two prices, in the direction of the swap, rounded up.
pub input_between : Bool → ℤ → ℤ → ℤ → Result ℤ
input_between zero_for_one current target liquidity =
    if zero_for_one
    then amount0_delta target current liquidity true
    else amount1_delta current target liquidity true

pub output_between : Bool → ℤ → ℤ → ℤ → Result ℤ
output_between zero_for_one current next liquidity =
    if zero_for_one
    then amount1_delta next current liquidity false
    else amount0_delta current next liquidity false

-- The second half of the function, once the next price is known.
pub finish_step : Bool → ℤ → ℤ → ℤ → ℤ → ℤ → ℤ → ℤ → ℤ → Result SwapStep
finish_step zero_for_one current target liquidity remaining fee_pips complement full_in next = do
  let maxed = eqb_ℤ next target
  amount_in ← if maxed then ok full_in else input_between zero_for_one current next liquidity
  amount_out ← output_between zero_for_one current next liquidity
  fee ← if maxed then mul_div_up amount_in fee_pips complement else sub_u256 remaining amount_in
  ok (record { next = next; amount_in = amount_in; amount_out = amount_out; fee = fee })

unfoldable pub compute_swap_step : ℤ → ℤ → ℤ → ℤ → ℤ → Result SwapStep
unfolding input_between output_between finish_step
compute_swap_step current target liquidity remaining fee_pips = do
  let zero_for_one = leb_ℤ target current
  complement ← or_fail (sub_u256 (pos million) fee_pips) invalid_fee_pips
  fail_if (non_positive complement) invalid_fee_pips
  less_fee ← mul_div remaining complement (pos million)
  full_in ← input_between zero_for_one current target liquidity
  next ←
      if leb_ℤ full_in less_fee
      then ok target
      else next_sqrt_from_input current liquidity less_fee zero_for_one
  finish_step zero_for_one current target liquidity remaining fee_pips complement full_in next
