-- ===== src/Amm/Swap/Math.antt =====
-- Why a step that cannot pay for the whole way to the target stops before it. `n` is the liquidity
-- scaled by 2 ^ 96, `p` the price, `t` the target and `x` the input less the fee.
use native.Mathlib.Nat.{
  div-mul-le_self, lt-mul-div-succ, mul-le-mul_left, lt_of_mul-lt-mul_right, div-lt_iff_lt-mul,
}
use aladdin_solver_engine.Prelude.{ap, arith, ℕ, ◌*◌, ◌+◌, ◌-◌, ◌/◌, ◌<◌, ◌≡◌, ◌≤◌}
use aladdin_solver_engine.Amm.Swap.Laws.{ceil_div, ceil_div-le, lt-ceil_div, lt_of_lt-ceil_div}

-- The input that a move down from `p` to `t` takes.
abbrev pub input_down : (n p t : ℕ) → ℕ
input_down n p t = ceil_div (ceil_div (n * (p - t)) p) t

pub short_product : (n p t x : ℕ) → 0 < t → t ≤ p → x < input_down n p t → t * (n + x * p) < n * p
short_product n p t x ht le h =
    let inner : x * t < ceil_div (n * (p - t)) p =
      lt_of_lt-ceil_div (ceil_div (n * (p - t)) p) t x ht h in
    let outer : x * t * p < n * (p - t) =
      lt_of_lt-ceil_div (n * (p - t)) p (x * t) (omega arith) inner in
    let e : p ≡ (p - t) + t = omega arith in omega (arith, outer, ap (λ (k : ℕ). n * k) e)

-- The exact price stays above the target.
pub exact_above :
    (n p t x : ℕ)
    → 0 < t
    → t ≤ p
    → 0 < n + x * p
    → x < input_down n p t
    → t < ceil_div (n * p) (n + x * p)
exact_above n p t x ht le pos_d h =
    lt-ceil_div (n * p) (n + x * p) t pos_d (short_product n p t x ht le h)

-- So does the price of the fallback, which rounds `n / p` first.
pub fallback_above :
    (n p t x : ℕ)
    → 0 < t
    → t ≤ p
    → 0 < n / p + x
    → x < input_down n p t
    → t < ceil_div n (n / p + x)
fallback_above n p t x ht le pos_d h = lt-ceil_div n (n / p + x) t pos_d (
    lt_of_mul-lt-mul_right p
      (omega (arith, short_product n p t x ht le h, mul-le-mul_left t (div-mul-le_self n p))))

pub exact_below : (n p x : ℕ) → 0 < n + x * p → ceil_div (n * p) (n + x * p) ≤ p
exact_below n p x h = ceil_div-le (n * p) (n + x * p) p h (omega arith)

pub fallback_below : (n p x : ℕ) → 0 < p → 0 < x → ceil_div n (n / p + x) ≤ p
fallback_below n p x hp hx =
    ceil_div-le n (n / p + x) p (omega arith)
      (omega (arith, lt-mul-div-succ n hp, mul-le-mul_left p (lift x hx)))
  where
    lift : (k : ℕ) → 0 < k → 1 ≤ k
    lift k h = h

-- A move up by what the input buys does not reach a target that costs more.
pub up_below :
    (l p t x q : ℕ) → 0 < l → 0 < q → p ≤ t → x < ceil_div (l * (t - p)) q → p + x * q / l < t
up_below l p t x q hl hq le h =
    let short : x * q < l * (t - p) = lt_of_lt-ceil_div (l * (t - p)) q x hq h in
    let gap : x * q / l < t - p = (div-lt_iff_lt-mul hl).1 (omega (arith, short)) in omega arith
