-- ===== src/Amm/Concentrated/Loop.antt =====
-- The loop of a swap: what its steps leave over, and a check that never fires.
use aladdin_solver_engine.Prelude.{
  >>=-avoids, >>=-eq-err, >>=-eq-ok, Bool, Bool-cases, List, abs, arith, bit_len_exceeds, eqb_ℤ,
  err, fail_if-eq-err, fail_if-eq-ok, if◌then◌else◌, inl, inr, is_zero, length, ltb_ℤ, negative,
  no_liquidity, non_positive, none, not, ok, pos, refl, step_overconsumed, ℕ, ℤ, ◌&&◌, ◌/◌, ◌^◌,
  ◌||◌, ◌≡◌, ◌≢◌, ◌≤◌,
}
use aladdin_solver_engine.Amm.U256.{add_u256, max_u256}
use aladdin_solver_engine.Amm.U256.Laws.{add_u256-ok}
use aladdin_solver_engine.Amm.Pool.{Tick}
use aladdin_solver_engine.Amm.Swap.{SwapStep, compute_swap_step}
use aladdin_solver_engine.Amm.Swap.Laws.{quo_up-pos}
use aladdin_solver_engine.Amm.Swap.Errors.{add_u256-errors, compute_swap_step-errors}
use aladdin_solver_engine.Amm.Swap.Consumed.{IsStepped, compute_swap_step-IsStepped}
use aladdin_solver_engine.Amm.TickMath.{get_sqrt_ratio_at_tick, ratio_of}
use aladdin_solver_engine.Amm.Concentrated.{
  Round, SwapState, Target, again, cross_or_stop, next_target, no_crossing, settle_step, stop,
  swap_round, tick_at, toward,
}

cross_or_stop-errors :
    (zero_for_one : Bool) (limit : ℤ) (target : Target) (s : SwapState)
    → cross_or_stop zero_for_one limit target s ≢ err step_overconsumed
unfolding cross_or_stop
cross_or_stop-errors zero_for_one limit target s h = ground arith

get_sqrt_ratio_at_tick-errors : (t : ℤ) → get_sqrt_ratio_at_tick t ≢ err step_overconsumed
unfolding get_sqrt_ratio_at_tick
get_sqrt_ratio_at_tick-errors t h = ground arith

next_target-errors :
    (z : Bool) (limit : ℤ) (ticks : List Tick) (idx : ℤ)
    → next_target z limit ticks idx ≢ err step_overconsumed
unfolding next_target
next_target-errors z limit ticks idx h = grind (arith, get_sqrt_ratio_at_tick-errors)

-- The number is not negative.
abbrev pub NonNeg : ℤ → Type 0
NonNeg v = v ≡ pos (abs v)

price-NonNeg : (t v : ℤ) → get_sqrt_ratio_at_tick t ≡ ok v → NonNeg v
unfolding get_sqrt_ratio_at_tick
price-NonNeg t v h = ground (
  arith,
  quo_up-pos (max_u256 / ratio_of (abs t)) (2 ^ 32),
  quo_up-pos (ratio_of (abs t)) (2 ^ 32),
)

-- The numbers of a running swap are not negative.
pub record IsRunning (s : SwapState) : Type 0 where
  pub price : NonNeg s.sqrt_price
  pub liquid : NonNeg s.liquidity
  pub left : NonNeg s.remaining
  pub gained : NonNeg s.amount_out

toward-NonNeg :
    (z : Bool) (m : ℕ) (tick : Tick) (t : Target) → toward z (pos m) tick ≡ ok t → NonNeg t.price
unfolding toward
toward-NonNeg z m tick t h =
    let (v, ev, h1) = >>=-eq-ok (get_sqrt_ratio_at_tick tick.index) _ h in
    let nn = price-NonNeg tick.index v ev in ground arith

next_target-NonNeg :
    (z : Bool) (m : ℕ) (ticks : List Tick) (idx : ℤ) (t : Target)
    → next_target z (pos m) ticks idx ≡ ok t
    → NonNeg t.price
unfolding next_target
next_target-NonNeg z m ticks idx t h =
    elim (Bool-cases (if z then not (negative idx) else ltb_ℤ idx (pos (length ticks)))) [
      | inl e ↦
          let (tick, et, h1) = >>=-eq-ok (tick_at ticks idx) _ (rw e at h) in
          toward-NonNeg z m tick t h1
      | inr e ↦ at_limit t (rw e at h)
    ]
  where
    at_limit : (t : Target) → ok (record { price = pos m; crossing = none }) ≡ ok t → NonNeg t.price
    at_limit t q = ground arith

-- The state in which a round leaves the loop.
abbrev pub state_of : Round → SwapState
state_of (stop s) = s
state_of (again s) = s

cross_or_stop-IsRunning :
    (z : Bool) (limit : ℤ) (t : Target) (s : SwapState) (r : Round)
    → IsRunning s
    → cross_or_stop z limit t s ≡ ok r
    → IsRunning (state_of r)
      × ((state_of r).remaining ≡ s.remaining)
      × ((state_of r).amount_out ≡ s.amount_out)
unfolding cross_or_stop
cross_or_stop-IsRunning z limit t s r v h = ground arith

-- A step that succeeded from a running state is settled without the error of an overconsumed
-- input, and the state stays a running one with no more input left than before.
settle_step-IsRunning :
    (z : Bool) (limit : ℤ) (t : Target) (s : SwapState) (step : SwapStep) (r : Round)
    → IsRunning s
    → IsStepped (abs s.sqrt_price) (abs t.price) (abs s.remaining) step
    → settle_step z limit t s step ≡ ok r
    → IsRunning (state_of r) × (abs (state_of r).remaining ≤ abs s.remaining)
unfolding settle_step
settle_step-IsRunning z limit t s step r v (next, spent, fee, en, es, ef, stepped) h =
    let (c, ec, h1) = >>=-eq-ok (add_u256 step.amount_in step.fee) _ h in
    let (x, y, ex, ey, e, _) = add_u256-ok step.amount_in step.fee c ec in
    elim (Bool-cases
      (is_zero c && is_zero step.amount_out && eqb_ℤ step.next s.sqrt_price && no_crossing t)) [
        | inl idle ↦ stay (rw idle at h1)
        | inr busy ↦
            let (_, h2) = fail_if-eq-ok (ltb_ℤ s.remaining c) _ _ (rw busy at h1) in
            let (o, eo, h3) = >>=-eq-ok (add_u256 s.amount_out step.amount_out) _ h2 in
            let (u, w, _, _, eu, _) = add_u256-ok s.amount_out step.amount_out o eo in
            let (run, er, _) =
              cross_or_stop-IsRunning z limit t _ r
                (record {
                  price = ground arith;
                  liquid = v.liquid;
                  left = ground arith;
                  gained = ground arith;
                })
                h3 in
            (run, ground arith)
      ]
  where
    stay :
        ok (stop s) ≡ ok r → IsRunning (state_of r) × (abs (state_of r).remaining ≤ abs s.remaining)
    stay q = ground arith

settle_step-errors :
    (z : Bool) (limit : ℤ) (t : Target) (s : SwapState) (step : SwapStep)
    → IsRunning s
    → IsStepped (abs s.sqrt_price) (abs t.price) (abs s.remaining) step
    → settle_step z limit t s step ≢ err step_overconsumed
unfolding settle_step
settle_step-errors z limit t s step v (next, spent, fee, en, es, ef, stepped) h =
    elim (>>=-eq-err (add_u256 step.amount_in step.fee) _ h) [
      | inl e ↦ add_u256-errors step.amount_in step.fee e
      | inr (c, ec, h1) ↦
          let (x, y, ex, ey, e, _) = add_u256-ok step.amount_in step.fee c ec in
          grind (arith, add_u256-errors, cross_or_stop-errors)
    ]

compute-IsStepped :
    (c t l r f : ℤ) (s : SwapStep)
    → NonNeg c
    → NonNeg t
    → NonNeg l
    → NonNeg r
    → NonNeg f
    → compute_swap_step c t l r f ≡ ok s
    → IsStepped (abs c) (abs t) (abs r) s
compute-IsStepped c t l r f s hc ht hl hr hf h =
    compute_swap_step-IsStepped (abs c) (abs t) (abs l) (abs r) (abs f) s
      (rw (← hc, ← ht, ← hl, ← hr, ← hf) h)

module _ (z : Bool) (m f : ℕ) (ticks : List Tick) where
  -- A round of a running swap does not report an overconsumed input.
  pub swap_round-errors :
      (s : SwapState) → IsRunning s → swap_round z (pos m) (pos f) ticks s ≢ err step_overconsumed
  unfolding swap_round
  swap_round-errors s v h =
      elim (fail_if-eq-err (non_positive s.liquidity || bit_len_exceeds s.liquidity 128)
        no_liquidity _ h) [
          | inl e ↦ cc
          | inr h1 ↦
              >>=-avoids (next_target z (pos m) ticks s.idx) _ step_overconsumed
                (next_target-errors z (pos m) ticks s.idx)
                (λ t et.
                  >>=-avoids
                    (compute_swap_step s.sqrt_price t.price s.liquidity s.remaining (pos f)) _
                    step_overconsumed
                    (compute_swap_step-errors s.sqrt_price t.price s.liquidity s.remaining (pos f))
                    (λ step es. settle_step-errors z (pos m) t s step v (
                      compute-IsStepped s.sqrt_price t.price s.liquidity s.remaining (pos f) step
                        v.price (next_target-NonNeg z m ticks s.idx t et) v.liquid v.left refl es)))
                h1
        ]

  pub swap_round-IsRunning :
      (s : SwapState) (r : Round)
      → IsRunning s
      → swap_round z (pos m) (pos f) ticks s ≡ ok r
      → IsRunning (state_of r) × (abs (state_of r).remaining ≤ abs s.remaining)
  unfolding swap_round
  swap_round-IsRunning s r v h =
      let (_, h1) =
        fail_if-eq-ok (non_positive s.liquidity || bit_len_exceeds s.liquidity 128) _ _ h in
      let (t, et, h2) = >>=-eq-ok (next_target z (pos m) ticks s.idx) _ h1 in
      let (step, es, h3) =
        >>=-eq-ok (compute_swap_step s.sqrt_price t.price s.liquidity s.remaining (pos f)) _ h2 in
      settle_step-IsRunning z (pos m) t s step r v
        (compute-IsStepped s.sqrt_price t.price s.liquidity s.remaining (pos f) step v.price
          (next_target-NonNeg z m ticks s.idx t et) v.liquid v.left refl es)
        h3
