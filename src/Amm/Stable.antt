-- ===== src/Amm/Stable.antt =====
-- internal/amm/stable.go: the quote of a stable pool, by Balancer's StableMath.
pub mod Newton
pub mod Quote
use aladdin_solver_engine.Prelude.{
  Bool, List, Option, Result, [], abs, bad_token_index, division_by_zero, eqb_ℤ, err, fail_if,
  false, get_elem?, if◌then◌else◌, index_out_of_range, invalid_pool_fee, is_empty, is_zero, leb,
  leb_ℤ, length, ltb, ltb_ℤ, negative, nil_without_error, no_liquidity, non_positive, none, not, ok,
  or_fail, pos, set, some, stable_no_converge, suc, true, zero, ℕ, ℤ, ◌&&◌, ◌-ℤ◌, ◌==◌, ◌>>=◌, ◌>>◌,
  ◌^◌, ◌||◌, ◌∷◌,
}
use aladdin_solver_engine.Amm.U256.{
  add_u256, div_down_u256, div_up_u256, is_u256, mul_u256, sub_u256,
}
use aladdin_solver_engine.Amm.Pool.{Pool, require_u256}

abbrev pub amp_precision : ℤ
amp_precision = pos 1000

abbrev pub fp_one : ℤ
fp_one = pos (10 ^ 18)

abbrev pub stable_max_iterations : ℕ
stable_max_iterations = 255

unfoldable pub fp_mul_down : ℤ → ℤ → Result ℤ
fp_mul_down a b = do product ← mul_u256 a b; div_down_u256 product fp_one

unfoldable pub fp_mul_up : ℤ → ℤ → Result ℤ
fp_mul_up a b = do
  product ← mul_u256 a b
  if is_zero product then ok (pos 0) else (do
    less_one ← sub_u256 product (pos 1)
    result ← div_down_u256 less_one fp_one
    add_u256 result (pos 1))

unfoldable pub fp_div_down : ℤ → ℤ → Result ℤ
fp_div_down a scaling_factor = do
  fail_if (non_positive scaling_factor) division_by_zero
  inflated ← mul_u256 a fp_one
  div_down_u256 inflated scaling_factor

unfoldable pub fee_bfp : Pool → Result ℤ
fee_bfp p = do
  fee_num ← require_u256 p.fee_num invalid_pool_fee
  fee_den ← require_u256 p.fee_den invalid_pool_fee
  fail_if (is_zero fee_den) invalid_pool_fee
  scaled ← mul_u256 fee_num fp_one
  div_down_u256 scaled fee_den

-- `converged`: the two differ by one at most.
unfoldable pub converged : ℤ → ℤ → Bool
converged current previous = leb (abs (current -ℤ previous)) 1

-- The sum of the balances, each of which must be a uint256.
unfoldable pub sum_balances : List ℤ → ℤ → Result ℤ
sum_balances [] sum = ok sum
sum_balances (balance ∷ rest) sum = do
  fail_if (not (is_u256 balance)) no_liquidity
  sum' ← add_u256 sum balance
  sum_balances rest sum'

-- The inner loop of `stableInvariant`.
unfoldable pub d_product : ℤ → ℤ → List ℤ → ℤ → Result ℤ
d_product invariant n [] d_p = ok d_p
d_product invariant n (balance ∷ rest) d_p = do
  product ← mul_u256 d_p invariant
  denominator ← or_fail (mul_u256 balance n) no_liquidity
  fail_if (is_zero denominator) no_liquidity
  d_p' ← div_down_u256 product denominator
  d_product invariant n rest d_p'

-- The rest of a round, once the inner loop has run.
pub invariant_update : ℤ → ℤ → ℤ → ℤ → ℤ → Result ℤ
invariant_update amp_times_total sum n invariant d_p = do
  scaled ← mul_u256 amp_times_total sum
  term ← div_down_u256 scaled amp_precision
  d_p_times_n ← mul_u256 d_p n
  sum_terms ← add_u256 term d_p_times_n
  numerator ← mul_u256 sum_terms invariant
  amp_minus_precision ← sub_u256 amp_times_total amp_precision
  product ← mul_u256 amp_minus_precision invariant
  first ← div_down_u256 product amp_precision
  n_plus_one ← add_u256 n (pos 1)
  last_term ← mul_u256 n_plus_one d_p
  denominator ← or_fail (add_u256 first last_term) no_liquidity
  fail_if (non_positive denominator) no_liquidity
  div_down_u256 numerator denominator

-- One round of the iteration for the invariant.
unfoldable pub invariant_round : ℤ → ℤ → ℤ → List ℤ → ℤ → Result ℤ
unfolding invariant_update
invariant_round amp_times_total sum n balances invariant = do
  d_p ← d_product invariant n balances invariant
  invariant_update amp_times_total sum n invariant d_p

-- Both loops: repeat the round until two values in a row differ by one at most, at most so often.
unfoldable pub iterate : ℕ → (ℤ → Result ℤ) → ℤ → Result ℤ
iterate zero round previous = err stable_no_converge
iterate (suc left) round previous = round previous >>= λ current.
    elim (converged current previous) [ true ↦ ok current | false ↦ iterate left round current ]

unfoldable pub stable_invariant : ℤ → List ℤ → Result ℤ
stable_invariant amp balances = do
  fail_if (is_empty balances || not (is_u256 amp)) no_liquidity
  let n = pos (length balances)
  sum ← sum_balances balances (pos 0)
  if is_zero sum then ok (pos 0) else (do
    amp_times_total ← mul_u256 amp n
    iterate stable_max_iterations (invariant_round amp_times_total sum n balances) sum)

-- The loop over `balances[1:]`, over `pD` and `sum`.
unfoldable pub p_d_loop : ℤ → ℤ → List ℤ → ℤ → ℤ → Result (ℤ × ℤ)
p_d_loop invariant n [] p_d sum = ok (p_d, sum)
p_d_loop invariant n (balance ∷ rest) p_d sum = do
  by_balance ← mul_u256 p_d balance
  by_n ← mul_u256 by_balance n
  p_d' ← div_down_u256 by_n invariant
  sum' ← add_u256 sum balance
  p_d_loop invariant n rest p_d' sum'

-- One round of the iteration for a balance.
unfoldable pub balance_round : ℤ → ℤ → ℤ → ℤ → Result ℤ
balance_round invariant b c token_balance = do
  square ← mul_u256 token_balance token_balance
  numerator ← add_u256 square c
  doubled ← mul_u256 token_balance (pos 2)
  plus_b ← add_u256 doubled b
  denominator ← or_fail (sub_u256 plus_b invariant) no_liquidity
  fail_if (non_positive denominator) no_liquidity
  div_up_u256 numerator denominator

-- `balances[i]`; an index past the end is a fault.
abbrev pub at_index : List ℤ → ℕ → Result ℤ
at_index xs i = elim (get_elem? xs i) [ none ↦ err index_out_of_range | some x ↦ ok x ]

unfoldable pub stable_balance_given_invariant : ℤ → List ℤ → ℤ → ℕ → Result ℤ
stable_balance_given_invariant amp [] invariant token_index = err no_liquidity
stable_balance_given_invariant amp (first ∷ others) invariant token_index = do
  fail_if
      (not (ltb token_index (length (first ∷ others)))
        || not (is_u256 amp)
        || not (is_u256 invariant))
      no_liquidity
  let n = pos (length (first ∷ others))
  amp_times_total ← mul_u256 amp n
  p_d_start ← mul_u256 first n
  (p_d, total) ← p_d_loop invariant n others p_d_start first
  own ← at_index (first ∷ others) token_index
  sum ← sub_u256 total own
  inv2 ← mul_u256 invariant invariant
  denominator ← or_fail (mul_u256 amp_times_total p_d) no_liquidity
  fail_if (non_positive denominator) no_liquidity
  c1 ← div_up_u256 inv2 denominator
  c2 ← mul_u256 c1 amp_precision
  c ← mul_u256 c2 own
  b1 ← div_down_u256 invariant amp_times_total
  b2 ← mul_u256 b1 amp_precision
  b ← add_u256 sum b2
  top ← add_u256 inv2 c
  bottom ← add_u256 invariant b
  token_balance ← div_up_u256 top bottom
  iterate stable_max_iterations (balance_round invariant b c) token_balance

-- The upscaled balances; every balance and every factor must be positive.
unfoldable pub upscale : List (Option ℤ) → List (Option ℤ) → Result (List ℤ)
upscale [] factors = ok []
upscale (balance ∷ rest) [] = err no_liquidity
upscale (balance ∷ rest) (factor ∷ factors) = do
  b ← require_u256 balance no_liquidity
  fail_if (non_positive b) no_liquidity
  f ← require_u256 factor no_liquidity
  fail_if (non_positive f) no_liquidity
  scaled ← or_fail (fp_mul_down b f) no_liquidity
  fail_if (non_positive scaled) no_liquidity
  others ← upscale rest factors
  ok (scaled ∷ others)

-- A pointer of a list that earlier checks have shown to be there.
abbrev pub deref : List (Option ℤ) → ℕ → Result ℤ
deref xs i = elim (get_elem? xs i) [
  | none ↦ err index_out_of_range
  | some o ↦ elim o [ none ↦ err index_out_of_range | some v ↦ ok v ]
]

-- From the invariant on: the balance that keeps it, and what leaves the pool.
pub stable_out : Pool → List ℤ → ℤ → ℤ → ℕ → ℕ → Result ℤ
stable_out p balances invariant up_in in_idx out_idx = do
  amp ← require_u256 p.amplification_raw no_liquidity
  balance_in ← at_index balances in_idx
  grown ← add_u256 balance_in up_in
  let swapped = set balances in_idx grown
  final_out ← stable_balance_given_invariant amp swapped invariant out_idx
  restored ← sub_u256 grown up_in
  balance_out ← at_index (set swapped in_idx restored) out_idx
  gap ← sub_u256 balance_out final_out
  up_out ← or_fail (sub_u256 gap (pos 1)) no_liquidity
  fail_if (non_positive up_out) no_liquidity
  factor ← deref p.scaling_factors out_idx
  out ← or_fail (fp_div_down up_out factor) no_liquidity
  raw_balance ← deref p.balances out_idx
  fail_if (non_positive out || leb_ℤ raw_balance out) no_liquidity
  ok out

-- An `int` index of the list.
abbrev pub in_list : ℕ → ℤ → Bool
in_list n i = not (negative i) && ltb_ℤ i (pos n)

unfoldable pub quote_stable_indexed : Pool → ℤ → ℤ → ℤ → Result ℤ
unfolding stable_out
quote_stable_indexed p in_idx out_idx amount_in = do
  let n = length p.token_list
  fail_if (ltb n 2 || not (length p.balances == n) || not (length p.scaling_factors == n))
      no_liquidity
  fail_if (eqb_ℤ in_idx out_idx || not (in_list n in_idx) || not (in_list n out_idx))
      bad_token_index
  fail_if (not (is_u256 amount_in) || non_positive amount_in) no_liquidity
  amp ← require_u256 p.amplification_raw no_liquidity
  fail_if (non_positive amp) no_liquidity
  fee_rate ← or_fail (fee_bfp p) invalid_pool_fee
  fail_if (leb_ℤ fp_one fee_rate) invalid_pool_fee
  fee ← fp_mul_up amount_in fee_rate
  amount_after_fee ← or_fail (sub_u256 amount_in fee) no_liquidity
  fail_if (non_positive amount_after_fee) no_liquidity
  balances ← upscale p.balances p.scaling_factors
  factor_in ← deref p.scaling_factors (abs in_idx)
  up_in ← or_fail (fp_mul_down amount_after_fee factor_in) no_liquidity
  fail_if (non_positive up_in) no_liquidity
  invariant ← stable_invariant amp balances
  -- The source returns no value and no error here.
  fail_if (non_positive invariant) nil_without_error
  stable_out p balances invariant up_in (abs in_idx) (abs out_idx)
