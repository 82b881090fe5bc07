-- ===== src/Amm/Swap/Laws.antt =====
-- Division with rounding up, and what the full-precision operations return.
use native.Mathlib.Nat.{
  div-mul-le_self, lt-mul-div-succ, le_of_mul-le-mul_right, lt_of_mul-lt-mul_left, le_trans,
}
use aladdin_solver_engine.Prelude.{
  Bool-cases, Result, arith, if◌then◌else◌, inl, inr, ok, pos, ℕ, ℤ, ◌*◌, ◌+◌, ◌-◌, ◌/◌, ◌<◌, ◌==◌,
  ◌>>=◌, ◌≡◌, ◌≤◌, ◌⊎◌,
}
use aladdin_solver_engine.Amm.U256.{div_up_u256, is_u256, quo_up}
use aladdin_solver_engine.Amm.Swap.{mul_div, mul_div_up}

-- `n / d` rounded up, as `QuoRem` computes it.
pub ceil_div : ℕ → ℕ → ℕ
ceil_div n d = if (n - n / d * d) == 0 then n / d else n / d + 1

pub quo_up-pos : (n d : ℕ) → quo_up (pos n) (pos d) ≡ pos (ceil_div n d)
unfolding quo_up ceil_div
quo_up-pos n d = ground (arith, div-mul-le_self n d)

ceil_div-cases :
    (n d : ℕ)
    → ((ceil_div n d ≡ n / d) × (n ≡ n / d * d)) ⊎ ((ceil_div n d ≡ n / d + 1) × (n / d * d < n))
unfolding ceil_div
ceil_div-cases n d = elim (Bool-cases ((n - n / d * d) == 0)) [
  | inl e ↦ inl (rw e, ground (arith, div-mul-le_self n d))
  | inr e ↦ inr (rw e, ground (arith, div-mul-le_self n d))
]

pub le-ceil_div-mul : (n d : ℕ) → 0 < d → n ≤ ceil_div n d * d
le-ceil_div-mul n d h = elim (ceil_div-cases n d) [
  | inl (e, exact) ↦ rw e (omega arith)
  | inr (e, rest) ↦ rw e (omega (arith, lt-mul-div-succ n h))
]

pub ceil_div-le : (n d q : ℕ) → 0 < d → n ≤ q * d → ceil_div n d ≤ q
ceil_div-le n d q h p = elim (ceil_div-cases n d) [
  | inl (e, exact) ↦ rw e (le_of_mul-le-mul_right (le_trans (div-mul-le_self n d) p) h)
  | inr (e, rest) ↦ rw e (omega (arith, lt_of_mul-lt-mul_left d {m = n / d} {n = q} (omega arith)))
]

pub lt_of_lt-ceil_div : (n d q : ℕ) → 0 < d → q < ceil_div n d → q * d < n
lt_of_lt-ceil_div n d q h p = grind (arith, ceil_div-le n d q h)

pub lt-ceil_div : (n d q : ℕ) → 0 < d → q * d < n → q < ceil_div n d
lt-ceil_div n d q h p = grind (arith, le-ceil_div-mul n d h)

module _ {B : Type 0} (f : ℤ → Result B) {r : B} (x y d : ℕ) where
  pub mul_div-then :
      (mul_div (pos x) (pos y) (pos d) >>= f) ≡ ok r → (0 < d) × (f (pos (x * y / d)) ≡ ok r)
  unfolding mul_div is_u256
  mul_div-then h = ground arith

  pub mul_div_up-then :
      (mul_div_up (pos x) (pos y) (pos d) >>= f) ≡ ok r
      → (0 < d) × (f (pos (ceil_div (x * y) d)) ≡ ok r)
  unfolding mul_div_up is_u256
  mul_div_up-then h = ground (arith, quo_up-pos (x * y) d)

module _ {B : Type 0} (f : ℤ → Result B) {r : B} (x y : ℕ) where
  pub div_up_u256-then :
      (div_up_u256 (pos x) (pos y) >>= f) ≡ ok r → (0 < y) × (f (pos (ceil_div x y)) ≡ ok r)
  unfolding div_up_u256 is_u256
  div_up_u256-then h = ground (arith, quo_up-pos x y)
