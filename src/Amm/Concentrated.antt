-- ===== src/Amm/Concentrated.antt =====
-- internal/amm/amm.go, feePips and quoteConcentrated: a swap through the ticks of a pool.
pub mod Loop
pub mod Run
use aladdin_solver_engine.Prelude.{
  Bool, Error, List, Option, Result, Text, bit_len_exceeds, eqb_ℤ, equal_fold, err, fail_if, false,
  get_elem?, if◌then◌else◌, index_out_of_range, input_not_consumed, invalid_concentrated_fee,
  is_zero, leb_ℤ, length, ltb, ltb_ℤ, neg_ℤ, negative, negsuc, no_liquidity, non_positive, none,
  not, ok, pos, quo, some, step_overconsumed, suc, text_ltb, to_lower, true, zero, ℕ, ℤ, ◌&&◌, ◌*ℤ◌,
  ◌+ℤ◌, ◌+◌, ◌-ℤ◌, ◌-◌, ◌/◌, ◌>>=◌, ◌>>◌, ◌||◌,
}
use aladdin_solver_engine.Amm.U256.{add_u256, is_u256}
use aladdin_solver_engine.Amm.Pool.{Pool, Tick, require_u256}
use aladdin_solver_engine.Amm.Swap.{SwapStep, compute_swap_step, million}
use aladdin_solver_engine.Amm.TickMath.{get_sqrt_ratio_at_tick, max_tick}

abbrev pub min_sqrt_ratio : ℕ
min_sqrt_ratio = 4295128739

abbrev pub max_sqrt_ratio : ℕ
max_sqrt_ratio = 1461446703485210103287273052203988822378723970342

unfoldable pub fee_pips : Pool → Result ℤ
fee_pips p = do
  fee_num ← require_u256 p.fee_num invalid_concentrated_fee
  fee_den ← require_u256 p.fee_den invalid_concentrated_fee
  fail_if (non_positive fee_den) invalid_concentrated_fee
  let scaled = fee_num *ℤ pos million
  let pips = quo scaled fee_den
  fail_if
      (not (is_zero (scaled -ℤ pips *ℤ fee_den)) || not (is_u256 pips) || leb_ℤ (pos million) pips)
      invalid_concentrated_fee
  ok pips

-- `sort.Search`: the binary search of the standard library, with fuel for its halvings.
unfoldable pub sort_search : ℕ → (ℕ → Bool) → ℕ → ℕ → ℕ
sort_search zero f i j = i
sort_search (suc fuel) f i j = elim (ltb i j) [
  | false ↦ i
  | true ↦
      let h = (i + j) / 2 in sort_search fuel f (if f h then i else h + 1) (if f h then h else j)
]

-- `p.Ticks[idx]`; an index below zero or past the end is a fault.
abbrev pub tick_at : List Tick → ℤ → Result Tick
tick_at ticks (negsuc n) = err index_out_of_range
tick_at ticks (pos i) = elim (get_elem? ticks i) [ none ↦ err index_out_of_range | some t ↦ ok t ]

pub record SwapState : Type 0 where
  pub sqrt_price : ℤ
  pub liquidity : ℤ
  pub remaining : ℤ
  pub amount_out : ℤ
  pub idx : ℤ

-- The target of the next step, and the tick that is crossed there.
pub record Target : Type 0 where
  pub price : ℤ
  pub crossing : Option Tick

-- The tick's price if it lies before the limit, else the limit.
pub toward : Bool → ℤ → Tick → Result Target
toward zero_for_one limit tick = do
  tick_price ← get_sqrt_ratio_at_tick tick.index
  ok (
      if (if zero_for_one then ltb_ℤ limit tick_price else ltb_ℤ tick_price limit)
      then record { price = tick_price; crossing = some tick }
      else record { price = limit; crossing = none })

unfoldable pub next_target : Bool → ℤ → List Tick → ℤ → Result Target
unfolding toward
next_target zero_for_one limit ticks idx =
    if (if zero_for_one then not (negative idx) else ltb_ℤ idx (pos (length ticks)))
    then (do tick ← tick_at ticks idx; toward zero_for_one limit tick)
    else ok (record { price = limit; crossing = none })

-- What one round of the loop does: end it, or go on.
pub data Round : Type 0 where
  stop : SwapState → Round
  again : SwapState → Round

-- The end of a round: cross the tick that was reached, or see whether there is more to do.
pub cross_or_stop : Bool → ℤ → Target → SwapState → Result Round
cross_or_stop zero_for_one limit target s = elim target.crossing [
  | none ↦
      ok (if eqb_ℤ s.sqrt_price limit || not (non_positive s.remaining) then stop s else again s)
  | some tick ↦
      if eqb_ℤ s.sqrt_price target.price
      then (do
        let next_liquidity = s.liquidity +ℤ (if zero_for_one then neg_ℤ tick.net else tick.net)
        fail_if (negative next_liquidity || bit_len_exceeds next_liquidity 128) no_liquidity
        ok (
            again (record s {
              liquidity = next_liquidity;
              idx = if zero_for_one then s.idx -ℤ pos 1 else s.idx +ℤ pos 1;
            })))
      else ok (if eqb_ℤ s.sqrt_price limit then stop s else again s)
]

abbrev pub no_crossing : Target → Bool
no_crossing target = elim target.crossing [ none ↦ true | some _ ↦ false ]

pub settle_step : Bool → ℤ → Target → SwapState → SwapStep → Result Round
settle_step zero_for_one limit target s step = do
  consumed ← add_u256 step.amount_in step.fee
  if is_zero consumed
        && is_zero step.amount_out
        && eqb_ℤ step.next s.sqrt_price
        && no_crossing target
      then ok (stop s)
      else (do
        fail_if (ltb_ℤ s.remaining consumed) step_overconsumed
        amount_out ← add_u256 s.amount_out step.amount_out
        cross_or_stop zero_for_one limit target (record s {
          sqrt_price = step.next;
          remaining = s.remaining -ℤ consumed;
          amount_out = amount_out;
        }))

unfoldable pub swap_round : Bool → ℤ → ℤ → List Tick → SwapState → Result Round
unfolding settle_step cross_or_stop
swap_round zero_for_one limit pips ticks s = do
  fail_if (non_positive s.liquidity || bit_len_exceeds s.liquidity 128) no_liquidity
  target ← next_target zero_for_one limit ticks s.idx
  step ← compute_swap_step s.sqrt_price target.price s.liquidity s.remaining pips
  settle_step zero_for_one limit target s step

-- `for steps := 0; remaining.Sign() > 0 && steps < 512; steps++`, from the rounds that are left.
unfoldable pub swap_loop : ℕ → Bool → ℤ → ℤ → List Tick → SwapState → Result SwapState
swap_loop zero zero_for_one limit pips ticks s = ok s
swap_loop (suc rounds) zero_for_one limit pips ticks s = elim (non_positive s.remaining) [
  | true ↦ ok s
  | false ↦ swap_round zero_for_one limit pips ticks s >>= λ r. elim r [
    | stop s' ↦ ok s'
    | again s' ↦ swap_loop rounds zero_for_one limit pips ticks s'
  ]
]

abbrev pub max_steps : ℕ
max_steps = 512

-- `p.Ticks[i].Index > p.Tick`.
abbrev pub after_tick : ℤ → Option Tick → Bool
after_tick tick none = true
after_tick tick (some t) = ltb_ℤ tick t.index

-- A pointer that must not be nil.
abbrev pub require : Option ℤ → Error → Result ℤ
require none e = err e
require (some value) e = ok value

-- token0 is the smaller of the two addresses.
abbrev pub token0 : Pool → Text
token0 p = if text_ltb (to_lower p.token_b) (to_lower p.token_a) then p.token_b else p.token_a

-- `limit`: one inside the bound of the price that the swap moves to.
abbrev pub limit_of : Pool → Text → ℤ
limit_of p token_in =
    pos (if equal_fold token_in (token0 p) then min_sqrt_ratio + 1 else max_sqrt_ratio - 1)

-- The state in which the loop starts: the first tick above the pool's, or the one below it.
abbrev pub start_of : Pool → Text → ℤ → ℤ → ℤ → SwapState
start_of p token_in sqrt_price liquidity amount_in =
    let found =
      sort_search (length p.ticks) (λ i. after_tick p.tick (get_elem? p.ticks i)) 0
        (length p.ticks) in
    record {
      sqrt_price = sqrt_price;
      liquidity = liquidity;
      remaining = amount_in;
      amount_out = pos 0;
      idx = if equal_fold token_in (token0 p) then pos found -ℤ pos 1 else pos found;
    }

-- What the code checks before the loop: the price, the liquidity and the fee.
pub swap_inputs : Pool → Text → Result (ℤ × ℤ × ℤ)
swap_inputs p token_in = do
  sqrt_price ← require_u256 p.sqrt_price_x96 no_liquidity
  fail_if (ltb_ℤ sqrt_price (pos min_sqrt_ratio) || ltb_ℤ (pos max_sqrt_ratio) sqrt_price)
      no_liquidity
  liquidity ← require p.liquidity no_liquidity
  fail_if (non_positive liquidity || bit_len_exceeds liquidity 128) no_liquidity
  fail_if (ltb_ℤ p.tick (neg_ℤ (pos max_tick)) || ltb_ℤ (pos max_tick) p.tick) no_liquidity
  pips ← fee_pips p
  let limit = limit_of p token_in
  fail_if
      (if equal_fold token_in (token0 p) then leb_ℤ sqrt_price limit else leb_ℤ limit sqrt_price)
      no_liquidity
  ok (sqrt_price, liquidity, pips)

-- The checks after the loop.
pub swap_output : SwapState → Result ℤ
swap_output final = do
  fail_if (not (is_zero final.remaining)) input_not_consumed
  fail_if (non_positive final.amount_out) no_liquidity
  ok final.amount_out

unfoldable pub quote_concentrated : Pool → Text → ℤ → Result ℤ
unfolding swap_inputs swap_output
quote_concentrated p token_in amount_in = do
  (sqrt_price, liquidity, pips) ← swap_inputs p token_in
  final ←
      swap_loop max_steps (equal_fold token_in (token0 p)) (limit_of p token_in) pips p.ticks
        (start_of p token_in sqrt_price liquidity amount_in)
  swap_output final
