-- ===== src/Amm/Concentrated/Run.antt =====
-- The whole loop of a swap, and the quote.
use aladdin_solver_engine.Prelude.{
  >>=-avoids, >>=-eq-err, >>=-eq-ok, Bool, Bool-cases, List, Result, Text, abs, arith,
  bit_len_exceeds, equal_fold, err, fail_if-avoids, fail_if-eq-ok, false, if◌then◌else◌, inl, inr,
  leb_ℤ, ltb_ℤ, neg_ℤ, negsuc, no_liquidity, non_positive, ok, pos, refl, step_overconsumed, suc,
  zero, ℕ, ℤ, ◌*◌, ◌+◌, ◌-◌, ◌/◌, ◌||◌, ◌≡◌, ◌≢◌, ◌≤◌,
}
use aladdin_solver_engine.Amm.Pool.{
  Pool, Tick, require_u256, require_u256-avoids, require_u256-then,
}
use aladdin_solver_engine.Amm.Swap.{million}
use aladdin_solver_engine.Amm.TickMath.{max_tick}
use aladdin_solver_engine.Amm.Concentrated.{
  Round, SwapState, again, fee_pips, limit_of, max_sqrt_ratio, max_steps, min_sqrt_ratio,
  quote_concentrated, require, start_of, stop, swap_inputs, swap_loop, swap_output, swap_round,
  token0,
}
use aladdin_solver_engine.Amm.Concentrated.Loop.{
  IsRunning, NonNeg, state_of, swap_round-IsRunning, swap_round-errors,
}

module _ (z : Bool) (m f : ℕ) (ticks : List Tick) where
  swap_loop-errors :
      (n : ℕ) (s : SwapState)
      → IsRunning s
      → swap_loop n z (pos m) (pos f) ticks s ≢ err step_overconsumed
  unfolding swap_loop
  swap_loop-errors zero s v h = cc
  swap_loop-errors (suc n) s v h = elim (Bool-cases (non_positive s.remaining)) [
    | inl e ↦ absurd (ground arith)
    | inr e ↦ elim (>>=-eq-err (swap_round z (pos m) (pos f) ticks s) _ (rw (e, swap_loop) at h)) [
      | inl q ↦ swap_round-errors z m f ticks s v q
      | inr (stop s', q, h1) ↦ cc
      | inr (again s', q, h1) ↦
          swap_loop-errors n s' (swap_round-IsRunning z m f ticks s (again s') v q).0 h1
    ]
  ]

  after_round :
      (s s' : SwapState) (r : Round) (rest : SwapState → Result SwapState)
      → ((u : SwapState)
          → IsRunning u
          → rest u ≡ ok s'
          → IsRunning s' × (abs s'.remaining ≤ abs u.remaining))
      → IsRunning (state_of r) × (abs (state_of r).remaining ≤ abs s.remaining)
      → elim r [ stop u ↦ ok u | again u ↦ rest u ] ≡ ok s'
      → IsRunning s' × (abs s'.remaining ≤ abs s.remaining)
  after_round s s' (stop u) rest ih (run, le) h = ended (ground arith)
    where
      ended : u ≡ s' → IsRunning s' × (abs s'.remaining ≤ abs s.remaining)
      ended p =
          let both : IsRunning u × (abs u.remaining ≤ abs s.remaining) = (run, le) in rw p at both
  after_round s s' (again u) rest ih (run, le) h =
      let (run', le') = ih u run h in (run', omega (arith, le, le'))

  -- A running swap ends in a running state with no more input left than it had.
  swap_loop-IsRunning :
      (n : ℕ) (s s' : SwapState)
      → IsRunning s
      → swap_loop n z (pos m) (pos f) ticks s ≡ ok s'
      → IsRunning s' × (abs s'.remaining ≤ abs s.remaining)
  unfolding swap_loop
  swap_loop-IsRunning zero s s' v h = ground arith
  swap_loop-IsRunning (suc n) s s' v h = elim (Bool-cases (non_positive s.remaining)) [
    | inl e ↦ ground arith
    | inr e ↦
        let (r, q, h1) =
          >>=-eq-ok (swap_round z (pos m) (pos f) ticks s) _ (rw (e, swap_loop) at h) in
        after_round s s' r (swap_loop n z (pos m) (pos f) ticks) (λ u. swap_loop-IsRunning n u s')
          (swap_round-IsRunning z m f ticks s r v q) h1
  ]

fee_pips-NonNeg : (p : Pool) (v : ℤ) → fee_pips p ≡ ok v → (f : ℕ) × (v ≡ pos f)
unfolding fee_pips
fee_pips-NonNeg p v h =
    let (n, _, _, h1) = require_u256-then _ p.fee_num _ h in
    let (d, _, _, h2) = require_u256-then _ p.fee_den _ h1 in (n * million / d, ground arith)

fee_pips-errors : (p : Pool) → fee_pips p ≢ err step_overconsumed
unfolding fee_pips require_u256
fee_pips-errors p h = ground arith

swap_inputs-errors : (p : Pool) (token_in : Text) → swap_inputs p token_in ≢ err step_overconsumed
unfolding swap_inputs
swap_inputs-errors p token_in =
    require_u256-avoids _ p.sqrt_price_x96 no_liquidity step_overconsumed (λ e. cc)
      λ x _.
        fail_if-avoids (ltb_ℤ (pos x) (pos min_sqrt_ratio) || ltb_ℤ (pos max_sqrt_ratio) (pos x)) _
          _ step_overconsumed (λ e. cc)
          (>>=-avoids (require p.liquidity no_liquidity) _ step_overconsumed (λ e. ground arith)
            λ l el. λ h. grind (arith, fee_pips-errors))

inputs_ok :
    (x' n : ℕ) (l' f' x l f : ℤ)
    → (non_positive l' || bit_len_exceeds l' 128) ≡ false
    → f' ≡ pos n
    → ◌≡◌ {A = Result (ℤ × ℤ × ℤ)} (ok (pos x', l', f')) (ok (x, l, f))
    → NonNeg x × NonNeg l × NonNeg f
inputs_ok x' n (pos k) f' x l f bad ef h = ground arith
inputs_ok x' n (negsuc k) f' x l f bad ef h = absurd (ground arith)

swap_inputs-NonNeg :
    (p : Pool) (token_in : Text) (x l f : ℤ)
    → swap_inputs p token_in ≡ ok (x, l, f)
    → NonNeg x × NonNeg l × NonNeg f
unfolding swap_inputs
swap_inputs-NonNeg p token_in x l f h =
    let (x', _, _, h1) = require_u256-then _ p.sqrt_price_x96 _ h in
    let (_, h2) =
      fail_if-eq-ok (ltb_ℤ (pos x') (pos min_sqrt_ratio) || ltb_ℤ (pos max_sqrt_ratio) (pos x')) _ _
        h1 in
    let (l', el, h3) = >>=-eq-ok (require p.liquidity no_liquidity) _ h2 in
    let (bad, h4) = fail_if-eq-ok (non_positive l' || bit_len_exceeds l' 128) _ _ h3 in
    let (_, h5) =
      fail_if-eq-ok (ltb_ℤ p.tick (neg_ℤ (pos max_tick)) || ltb_ℤ (pos max_tick) p.tick) _ _ h4 in
    let (f', ef, h6) = >>=-eq-ok (fee_pips p) _ h5 in
    let (_, h7) =
      fail_if-eq-ok
        (if equal_fold token_in (token0 p)
          then leb_ℤ (pos x') (limit_of p token_in)
          else leb_ℤ (limit_of p token_in) (pos x'))
        _ _ h6 in
    let (n, fn) = fee_pips-NonNeg p f' ef in inputs_ok x' n l' f' x l f bad fn h7

swap_output-errors : (s : SwapState) → swap_output s ≢ err step_overconsumed
unfolding swap_output
swap_output-errors s h = ground arith

-- The check for an overconsumed input never fires: no quote of a concentrated pool fails by it.
pub quote_concentrated-never_overconsumed :
    (p : Pool) (token_in : Text) (a : ℕ)
    → quote_concentrated p token_in (pos a) ≢ err step_overconsumed
unfolding quote_concentrated
quote_concentrated-never_overconsumed p token_in a =
    >>=-avoids (swap_inputs p token_in) _ step_overconsumed (swap_inputs-errors p token_in)
      (λ (x, l, f) e.
        let (nx, nl, nf) = swap_inputs-NonNeg p token_in x l f e in
        >>=-avoids
          (swap_loop max_steps (equal_fold token_in (token0 p)) (limit_of p token_in) f p.ticks
            (start_of p token_in x l (pos a)))
          _ step_overconsumed
          (rw nf (
            swap_loop-errors (equal_fold token_in (token0 p))
              (if equal_fold token_in (token0 p) then min_sqrt_ratio + 1 else max_sqrt_ratio - 1)
              (abs f) p.ticks max_steps (start_of p token_in x l (pos a))
              (record { price = nx; liquid = nl; left = refl; gained = refl })))
          (λ final _ h. swap_output-errors final h))
