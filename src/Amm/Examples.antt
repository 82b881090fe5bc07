-- ===== src/Amm/Examples.antt =====
-- Runs of the quotes on small pools.
use aladdin_solver_engine.Amm.Quote.Stable.{quote_stable-quote_exact_in_pair}
use aladdin_solver_engine.Prelude.{
  List, Text, [], abs, arith, codes, equal_fold, err, false, leb_ℤ, neg_ℤ, negsuc, none, ok, pos,
  refl, some, step_overconsumed, text_eq, to_lower, true, ℕ, ℤ, ◌*◌, ◌+◌, ◌-◌, ◌<◌, ◌^◌, ◌↔◌, ◌∷◌,
  ◌≡◌, ◌≢◌, ◌≤◌,
}
use aladdin_solver_engine.Amm.U256.{
  add_u256, div_down_u256, div_up_u256, is_u256, max_u256, mul_u256, quo_up, sub_u256,
}
use aladdin_solver_engine.Amm.Pool.{
  Pool, all_tokens, concentrated_kind, constant_product_kind, require_u256, stable_kind, supports,
}
use aladdin_solver_engine.Amm.Pool.Tokens.{Holds, supports_iff}
use aladdin_solver_engine.Amm.Constant.{quote_constant_product}
use aladdin_solver_engine.Amm.Constant.Quote.{
  QuoteIs, quote_constant_product-QuoteIs, quote_constant_product-product_kept,
  quote_constant_product_mono,
}
use aladdin_solver_engine.Amm.Swap.{
  SwapStep, amount0_delta, amount1_delta, compute_swap_step, mul_div, mul_div_up,
  next_sqrt_from_input, q96,
}
use aladdin_solver_engine.Amm.Swap.Consumed.{IsStepped, compute_swap_step-IsStepped}
use aladdin_solver_engine.Amm.TickMath.{get_sqrt_ratio_at_tick}
use aladdin_solver_engine.Amm.TickMath.Bounds.{get_sqrt_ratio_at_tick-low}
use aladdin_solver_engine.Amm.Concentrated.{quote_concentrated}
use aladdin_solver_engine.Amm.Concentrated.Run.{quote_concentrated-never_overconsumed}
use aladdin_solver_engine.Amm.Stable.{
  balance_round, converged, d_product, fee_bfp, fp_div_down, fp_mul_down, fp_mul_up,
  invariant_round, iterate, p_d_loop, quote_stable_indexed, stable_balance_given_invariant,
  stable_invariant, sum_balances, upscale,
}
use aladdin_solver_engine.Amm.Stable.Newton.{Positive}
use aladdin_solver_engine.Amm.Stable.Quote.{upscaled_invariant-Positive}
use aladdin_solver_engine.Amm.Quote.{last_index, quote_exact_in_pair, quote_stable}
use aladdin_solver_engine.Amm.Quote.Laws.{IsQuotable, quote_exact_in_pair-ok}

abbrev pub gold : Text
gold = codes "0xa"

abbrev pub silver : Text
silver = codes "0xB"

abbrev pub pair : Pool
pair = record {
  id = codes "1";
  kind = constant_product_kind;
  address = codes "0xp";
  gas_estimate = 90000;
  token_a = gold;
  token_b = silver;
  reserve_a = some (pos 1000);
  reserve_b = some (pos 2000);
  fee_num = some (pos 3);
  fee_den = some (pos 1000);
  sqrt_price_x96 = none;
  liquidity = none;
  tick = pos 0;
  ticks = [];
  token_list = [];
  balances = [];
  scaling_factors = [];
  amplification_raw = none;
}

pair_quote : quote_constant_product pair gold (pos 100) ≡ ok (pos 181)
unfolding quote_constant_product require_u256 equal_fold text_eq to_lower sub_u256 mul_u256 add_u256
    div_down_u256
pair_quote = refl

pair_quote' : quote_constant_product pair gold (pos 200) ≡ ok (pos 332)
unfolding quote_constant_product require_u256 equal_fold text_eq to_lower sub_u256 mul_u256 add_u256
    div_down_u256
pair_quote' = refl

quote_constant_product-QuoteIs_example : QuoteIs pair gold 100 (pos 181)
quote_constant_product-QuoteIs_example =
    quote_constant_product-QuoteIs pair gold 100 (pos 181) pair_quote

quote_constant_product-product_kept_example :
    (o : ℕ) × (pos 181 ≡ pos o) × (1000 * 2000 ≤ (1000 + 100) * (2000 - o))
unfolding equal_fold text_eq to_lower
quote_constant_product-product_kept_example =
    quote_constant_product-product_kept pair gold 100 1000 2000 (pos 181) refl refl pair_quote

quote_constant_product_mono_example : leb_ℤ (pos 181) (pos 332) ≡ true
quote_constant_product_mono_example =
    quote_constant_product_mono pair gold 100 200 (pos 181) (pos 332) (omega arith) pair_quote
      pair_quote'

pair_quote_of_pair : quote_exact_in_pair pair gold silver (pos 100) ≡ ok (pos 181)
unfolding quote_exact_in_pair quote_constant_product require_u256 equal_fold text_eq to_lower
    sub_u256 mul_u256 add_u256 div_down_u256 is_u256 supports all_tokens
pair_quote_of_pair = refl

quote_exact_in_pair-ok_example :
    Positive (pos 100)
    × (abs (pos 100) ≤ max_u256)
    × (equal_fold gold silver ≡ false)
    × Holds gold (all_tokens pair)
    × Holds silver (all_tokens pair)
    × IsQuotable constant_product_kind
quote_exact_in_pair-ok_example =
    quote_exact_in_pair-ok pair gold silver (pos 100) (pos 181) pair_quote_of_pair

supports_iff_example : (supports pair gold silver ≡ true) ↔ (
    (equal_fold gold silver ≡ false)
    × Holds gold (all_tokens pair)
    × Holds silver (all_tokens pair))
supports_iff_example = supports_iff pair gold silver

abbrev one_step : SwapStep
one_step = record {
  next = pos 79149250711305166342700278159;
  amount_in = pos 997;
  amount_out = pos 996;
  fee = pos 3;
}

step_run :
    compute_swap_step (pos q96) (pos (2 ^ 95)) (pos 1_000_000) (pos 1000) (pos 3000) ≡ ok one_step
unfolding compute_swap_step amount0_delta amount1_delta next_sqrt_from_input mul_div mul_div_up
    quo_up is_u256 add_u256 sub_u256 mul_u256 div_down_u256 div_up_u256
step_run = refl

compute_swap_step-IsStepped_example : IsStepped q96 (2 ^ 95) 1000 one_step
compute_swap_step-IsStepped_example =
    compute_swap_step-IsStepped q96 (2 ^ 95) 1_000_000 1000 3000 one_step step_run

get_sqrt_ratio_at_tick-low_example :
    (v : ℕ) × (get_sqrt_ratio_at_tick (neg_ℤ (pos 60)) ≡ ok (pos v)) × (0 < v) × (v ≤ 2 ^ 96)
get_sqrt_ratio_at_tick-low_example = get_sqrt_ratio_at_tick-low 60 (omega arith)

abbrev ticked : Pool
ticked = record pair {
  kind = concentrated_kind;
  sqrt_price_x96 = some (pos q96);
  liquidity = some (pos 1_000_000_000);
  ticks =
      record { index = negsuc 59; net = pos 1_000_000_000 }
      ∷ record { index = pos 60; net = negsuc 999_999_999 }
      ∷ [];
}

quote_concentrated-never_overconsumed_example :
    quote_concentrated ticked gold (pos 1000) ≢ err step_overconsumed
quote_concentrated-never_overconsumed_example =
    quote_concentrated-never_overconsumed ticked gold 1000

abbrev steady : Pool
steady = record pair {
  kind = stable_kind;
  token_list = gold ∷ silver ∷ [];
  fee_num = some (pos 0);
  balances = some (pos 1_000_000) ∷ some (pos 1_000_000) ∷ [];
  scaling_factors = some (pos (10 ^ 18)) ∷ some (pos (10 ^ 18)) ∷ [];
  amplification_raw = some (pos 100_000);
}

abbrev million_each : List ℤ
million_each = pos 1_000_000 ∷ pos 1_000_000 ∷ []

steady_upscaled : upscale steady.balances steady.scaling_factors ≡ ok million_each
unfolding upscale require_u256 fp_mul_down mul_u256 div_down_u256
steady_upscaled = refl

steady_invariant : stable_invariant (pos 100_000) million_each ≡ ok (pos 2_000_000)
unfolding stable_invariant sum_balances invariant_round d_product iterate converged is_u256 add_u256
    sub_u256 mul_u256 div_down_u256 div_up_u256
steady_invariant = refl

upscaled_invariant-Positive_example : Positive (pos 2_000_000)
upscaled_invariant-Positive_example =
    upscaled_invariant-Positive steady (pos 100_000) million_each (pos 2_000_000) (omega arith)
      steady_upscaled steady_invariant

lower_a : to_lower (codes "0xa") ≡ codes "0xa"
unfolding to_lower
lower_a = refl

lower_b : to_lower (codes "0xb") ≡ codes "0xb"
unfolding to_lower
lower_b = refl

a_not_b : text_eq (codes "0xa") (codes "0xb") ≡ false
unfolding text_eq
a_not_b = refl

b_not_a : text_eq (codes "0xb") (codes "0xa") ≡ false
unfolding text_eq
b_not_a = refl

abbrev both_listed : Pool
both_listed = record steady { token_list = codes "0xa" ∷ codes "0xb" ∷ [] }

both_listed_quote : quote_stable both_listed (codes "0xa") (pos 1000) ≡ ok (pos 989)
unfolding quote_stable last_index quote_stable_indexed upscale require_u256 fee_bfp fp_mul_up
    fp_mul_down fp_div_down stable_invariant sum_balances invariant_round d_product iterate
    converged stable_balance_given_invariant p_d_loop balance_round is_u256 add_u256 sub_u256
    mul_u256 div_down_u256 div_up_u256 text_eq
both_listed_quote = refl

thousand_fits : is_u256 (pos 1000) ≡ true
unfolding is_u256
thousand_fits = refl

quote_stable-quote_exact_in_pair_example :
    (quote_stable both_listed (codes "0xa") (pos 1000)
      ≡ quote_exact_in_pair both_listed (codes "0xa") (codes "0xb") (pos 1000))
    × (quote_stable both_listed (codes "0xb") (pos 1000)
        ≡ quote_exact_in_pair both_listed (codes "0xb") (codes "0xa") (pos 1000))
quote_stable-quote_exact_in_pair_example =
    quote_stable-quote_exact_in_pair (codes "0xa") (codes "0xb") lower_a lower_b a_not_b b_not_a
      both_listed (pos 1000) refl refl thousand_fits refl
