-- ===== src/Amm/Swap/Errors.antt =====
-- No operation of a step reports an overconsumed input: that error is the swap loop's own.
use aladdin_solver_engine.Prelude.{Bool, arith, err, false, step_overconsumed, true, ℤ, ◌≢◌}
use aladdin_solver_engine.Amm.U256.{add_u256, div_down_u256, div_up_u256, sub_u256}
use aladdin_solver_engine.Amm.Swap.{
  amount0_between, amount0_delta, amount1_between, amount1_delta, compute_swap_step, finish_step,
  input_between, mul_div, mul_div_up, next_sqrt_down, next_sqrt_from_input, next_sqrt_up,
  output_between,
}

module _ (a b : ℤ) where
  pub add_u256-errors : add_u256 a b ≢ err step_overconsumed
  unfolding add_u256
  add_u256-errors h = ground arith

  pub sub_u256-errors : sub_u256 a b ≢ err step_overconsumed
  unfolding sub_u256
  sub_u256-errors h = ground arith

  div_down_u256-errors : div_down_u256 a b ≢ err step_overconsumed
  unfolding div_down_u256
  div_down_u256-errors h = ground arith

  div_up_u256-errors : div_up_u256 a b ≢ err step_overconsumed
  unfolding div_up_u256
  div_up_u256-errors h = ground arith

  mul_div-errors : (d : ℤ) → mul_div a b d ≢ err step_overconsumed
  unfolding mul_div
  mul_div-errors d h = ground arith

  mul_div_up-errors : (d : ℤ) → mul_div_up a b d ≢ err step_overconsumed
  unfolding mul_div_up
  mul_div_up-errors d h = ground arith

amount0_between-errors : (a b l : ℤ) (up : Bool) → amount0_between a b l up ≢ err step_overconsumed
unfolding amount0_between
amount0_between-errors a b l up h = grind (
  arith, sub_u256-errors, mul_div-errors, mul_div_up-errors, div_up_u256-errors,
  div_down_u256-errors,
)

amount1_between-errors : (a b l : ℤ) (up : Bool) → amount1_between a b l up ≢ err step_overconsumed
unfolding amount1_between
amount1_between-errors a b l up h =
    grind (arith, sub_u256-errors, mul_div-errors, mul_div_up-errors)

next_sqrt_down-errors : (p l x : ℤ) → next_sqrt_down p l x ≢ err step_overconsumed
unfolding next_sqrt_down
next_sqrt_down-errors p l x h =
    grind (arith, add_u256-errors, mul_div_up-errors, div_up_u256-errors, div_down_u256-errors)

next_sqrt_up-errors : (p l x : ℤ) → next_sqrt_up p l x ≢ err step_overconsumed
unfolding next_sqrt_up
next_sqrt_up-errors p l x h = grind (arith, add_u256-errors, mul_div-errors)

amount0_delta-errors : (a b l : ℤ) (up : Bool) → amount0_delta a b l up ≢ err step_overconsumed
unfolding amount0_delta
amount0_delta-errors a b l up h =
    ground (arith, amount0_between-errors a b l up, amount0_between-errors b a l up)

amount1_delta-errors : (a b l : ℤ) (up : Bool) → amount1_delta a b l up ≢ err step_overconsumed
unfolding amount1_delta
amount1_delta-errors a b l up h =
    ground (arith, amount1_between-errors a b l up, amount1_between-errors b a l up)

input_between-errors : (z : Bool) (c t l : ℤ) → input_between z c t l ≢ err step_overconsumed
unfolding input_between
input_between-errors z c t l h =
    ground (arith, amount0_delta-errors t c l true, amount1_delta-errors c t l true)

output_between-errors : (z : Bool) (c t l : ℤ) → output_between z c t l ≢ err step_overconsumed
unfolding output_between
output_between-errors z c t l h =
    ground (arith, amount1_delta-errors t c l false, amount0_delta-errors c t l false)

next_sqrt_from_input-errors :
    (p l x : ℤ) (z : Bool) → next_sqrt_from_input p l x z ≢ err step_overconsumed
unfolding next_sqrt_from_input
next_sqrt_from_input-errors p l x z h =
    ground (arith, next_sqrt_down-errors p l x, next_sqrt_up-errors p l x)

finish_step-errors :
    (z : Bool) (c t l r f k full w : ℤ) → finish_step z c t l r f k full w ≢ err step_overconsumed
unfolding finish_step
finish_step-errors z c t l r f k full w h =
    grind (arith, input_between-errors, output_between-errors, mul_div_up-errors, sub_u256-errors)

pub compute_swap_step-errors : (c t l r f : ℤ) → compute_swap_step c t l r f ≢ err step_overconsumed
unfolding compute_swap_step
compute_swap_step-errors c t l r f h = grind (
  arith, sub_u256-errors, mul_div-errors, input_between-errors, next_sqrt_from_input-errors,
  finish_step-errors,
)
