-- ===== src/Amm/TickMath/Bounds.antt =====
-- The range of the prices of ticks.
use native.Mathlib.Nat.{le_trans, mul-le-mul_right, mul-le-mul_left}
use aladdin_solver_engine.Prelude.{
  All, Bool-cases, List, [], ap, arith, if◌then◌else◌, inl, inr, neg_ℤ, ok, pos, suc, zero, ℕ, ◌*◌,
  ◌+◌, ◌/◌, ◌<◌, ◌^◌, ◌∷◌, ◌≡◌, ◌≤◌,
}
use aladdin_solver_engine.Amm.Swap.Laws.{ceil_div, ceil_div-le, le-ceil_div-mul, quo_up-pos}
use aladdin_solver_engine.Amm.TickMath.{
  apply_factors, bit_set, first_factor, get_sqrt_ratio_at_tick, max_tick, other_factors, ratio_of,
  two128,
}

scaled-le : (r f : ℕ) → f < two128 → r * f / two128 ≤ r
scaled-le r f h = omega (arith, mul-le-mul_left r (bound h))
  where
    bound : f < two128 → f ≤ two128
    bound p = omega arith

-- Every factor is below 2 ^ 128, so no digit raises the ratio.
apply_factors-le :
    (n i : ℕ) (fs : List ℕ) (r : ℕ) → All (λ f. f < two128) fs → apply_factors n i fs r ≤ r
unfolding apply_factors
apply_factors-le n i [] r h = omega arith
apply_factors-le n i (f ∷ fs) r h = elim (Bool-cases (bit_set n i)) [
  | inl e ↦ rw e (le_trans (apply_factors-le n (i + 1) fs (r * f / two128) h.1) (scaled-le r f h.0))
  | inr e ↦ rw e (apply_factors-le n (i + 1) fs r h.1)
]

-- The ratio if every digit were set.
apply_all : List ℕ → ℕ → ℕ
apply_all [] r = r
apply_all (f ∷ fs) r = apply_all fs (r * f / two128)

apply_all_mono : (fs : List ℕ) (r q : ℕ) → r ≤ q → apply_all fs r ≤ apply_all fs q
unfolding apply_all
apply_all_mono [] r q h = h
apply_all_mono (f ∷ fs) r q h =
    apply_all_mono fs (r * f / two128) (q * f / two128) (omega (arith, mul-le-mul_right f h))

apply_all-le :
    (n i : ℕ) (fs : List ℕ) (r : ℕ)
    → All (λ f. f < two128) fs
    → apply_all fs r ≤ apply_factors n i fs r
unfolding apply_factors apply_all
apply_all-le n i [] r h = omega arith
apply_all-le n i (f ∷ fs) r h = elim (Bool-cases (bit_set n i)) [
  | inl e ↦ rw e (apply_all-le n (i + 1) fs (r * f / two128) h.1)
  | inr e ↦ rw e (
      le_trans (apply_all_mono fs (r * f / two128) r (scaled-le r f h.0))
        (apply_all-le n (i + 1) fs r h.1))
]

factors_below : All (λ f. f < two128) other_factors
factors_below = omega arith

abbrev start : ℕ → ℕ
start n = if bit_set n 0 then first_factor else two128

start_bounds : (n : ℕ) → (first_factor ≤ start n) × (start n ≤ two128)
start_bounds n = ground arith

least : ℕ
unfolding apply_all
least = apply_all other_factors first_factor

least_pos : 0 < least
unfolding least
least_pos = omega arith

least-le : (n : ℕ) → least ≤ apply_all other_factors (start n)
unfolding least
least-le n = apply_all_mono other_factors first_factor (start n) (start_bounds n).0

-- The ratio of a tick is positive, so the division for a positive tick is defined, and at most one.
pub ratio_of_bounds : (n : ℕ) → (0 < ratio_of n) × (ratio_of n ≤ two128)
unfolding ratio_of
ratio_of_bounds n = (
  le_trans least_pos
      (le_trans (least-le n) (apply_all-le n 1 other_factors (start n) factors_below)),
  le_trans (apply_factors-le n 1 other_factors (start n) factors_below) (start_bounds n).1,
)

low_price :
    (n : ℕ)
    → n ≤ max_tick
    → ceil_div (ratio_of n) (2 ^ 32) ≤ 2 ^ 96
    → get_sqrt_ratio_at_tick (neg_ℤ (pos n)) ≡ ok (pos (ceil_div (ratio_of n) (2 ^ 32)))
unfolding get_sqrt_ratio_at_tick
low_price zero h below = ground (arith, quo_up-pos (ratio_of 0) (2 ^ 32))
low_price (suc m) h below =
    let e : m + 1 ≡ suc m = omega arith in
    ground (arith, quo_up-pos (ratio_of (suc m)) (2 ^ 32), ap ratio_of e)

-- The price of a tick between the lower limit and zero is defined, positive and at most 2 ^ 96.
pub get_sqrt_ratio_at_tick-low :
    (n : ℕ)
    → n ≤ max_tick
    → (v : ℕ) × (get_sqrt_ratio_at_tick (neg_ℤ (pos n)) ≡ ok (pos v)) × (0 < v) × (v ≤ 2 ^ 96)
unfolding get_sqrt_ratio_at_tick
get_sqrt_ratio_at_tick-low n h =
    let (low, high) = ratio_of_bounds n in
    let above : ratio_of n ≤ ceil_div (ratio_of n) (2 ^ 32) * 2 ^ 32 =
      le-ceil_div-mul (ratio_of n) (2 ^ 32) (omega arith) in
    let below : ceil_div (ratio_of n) (2 ^ 32) ≤ 2 ^ 96 =
      ceil_div-le (ratio_of n) (2 ^ 32) (2 ^ 96) (omega arith) (omega arith) in
    (ceil_div (ratio_of n) (2 ^ 32), low_price n h below, omega arith, below)
