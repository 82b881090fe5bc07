-- ===== src/Amm/Swap/Step.antt =====
-- What one step of a swap consumes, and where it takes the price.
use native.Mathlib.Nat.{lt_of_mul-lt-mul_left}
use aladdin_solver_engine.Prelude.{
  Bool-cases, ap, arith, as_step, bit_len_exceeds, fail_if-eq-ok, false, inl, inr, leb_ℤ, ltb_ℤ,
  negative, non_positive, not, ok, pos, suc, true, zero, ℕ, ℤ, ◌&&◌, ◌*◌, ◌+◌, ◌-◌, ◌/◌, ◌<◌, ◌==◌,
  ◌||◌, ◌≡◌, ◌≤◌, ◌⊎◌,
}
use aladdin_solver_engine.Amm.U256.{is_u256, max_u256}
use aladdin_solver_engine.Amm.U256.Laws.{
  add_u256-then, div_down_u256-then, or_fail-add_u256-then, sub_u256-then,
}
use aladdin_solver_engine.Amm.Swap.{
  amount0_between, amount1_between, max_u160, next_sqrt_down, next_sqrt_from_input, next_sqrt_up,
  q96,
}
use aladdin_solver_engine.Amm.Swap.Laws.{
  ceil_div, div_up_u256-then, lt_of_lt-ceil_div, mul_div-then, mul_div_up-then,
}
use aladdin_solver_engine.Amm.Swap.Math.{
  exact_above, exact_below, fallback_above, fallback_below, input_down, short_product, up_below,
}

pub amount0_between-up :
    (t p l : ℕ) (v : ℤ)
    → amount0_between (pos t) (pos p) (pos l) true ≡ ok v
    → (v ≡ pos (input_down (l * q96) p t)) × (0 < t)
unfolding amount0_between
amount0_between-up t p l v h =
    let (bad, h1) =
      fail_if-eq-ok (non_positive (pos t) || negative (pos l) || bit_len_exceeds (pos l) 128) _ _
        h in
    let (_, h2) = fail_if-eq-ok (not (is_u256 (pos (l * q96)))) _ _ h1 in
    let (_, _, h3) = sub_u256-then _ p t h2 in
    let (_, h4) = mul_div_up-then _ (l * q96) (p - t) p h3 in
    let (pt, h5) = div_up_u256-then ok (ceil_div (l * q96 * (p - t)) p) t (as_step _ h4) in
    (ground arith, pt)

pub amount1_between-up :
    (p t l : ℕ) (v : ℤ)
    → amount1_between (pos p) (pos t) (pos l) true ≡ ok v
    → v ≡ pos (ceil_div (l * (t - p)) q96)
unfolding amount1_between
amount1_between-up p t l v h =
    let (_, _, h1) = sub_u256-then _ t p h in
    let (_, h2) = mul_div_up-then ok l (t - p) q96 (as_step _ h1) in ground arith

-- The two prices that `next_sqrt_down` can return.
pub next_sqrt_down-cases :
    (p l x : ℕ) (v : ℤ)
    → next_sqrt_down (pos p) (pos l) (pos x) ≡ ok v
    → ((v ≡ pos (ceil_div (l * q96 * p) (l * q96 + x * p))) × (0 < l * q96 + x * p))
      ⊎ ((v ≡ pos (ceil_div (l * q96) (l * q96 / p + x))) × (0 < p) × (0 < l * q96 / p + x))
unfolding next_sqrt_down
next_sqrt_down-cases p l x v h =
    let (_, h1) = fail_if-eq-ok (not (is_u256 (pos (l * q96)))) _ _ h in
    elim (Bool-cases (
      leb_ℤ (pos (x * p)) (pos max_u256)
      && leb_ℤ (pos (l * q96 + x * p)) (pos max_u256)
      && leb_ℤ (pos (l * q96)) (pos (l * q96 + x * p)))) [
        | inl e ↦
            let (d, h2) =
              mul_div_up-then ok (l * q96) p (l * q96 + x * p) (as_step _ (rw e at h1)) in
            inl (ground arith, d)
        | inr e ↦
            let (hp, _, h2) = div_down_u256-then _ (l * q96) p (rw e at h1) in
            let (_, h3) = add_u256-then _ (l * q96 / p) x h2 in
            let (d, h4) = div_up_u256-then ok (l * q96) (l * q96 / p + x) (as_step _ h3) in
            inr (ground arith, hp, d)
      ]

pub next_sqrt_up-ok :
    (p l x : ℕ) (v : ℤ)
    → next_sqrt_up (pos p) (pos l) (pos x) ≡ ok v
    → (v ≡ pos (p + x * q96 / l)) × (0 < l)
unfolding next_sqrt_up
next_sqrt_up-ok p l x v h =
    let (hl, h1) = mul_div-then _ x q96 l h in
    let (_, h2) = or_fail-add_u256-then _ p (x * q96 / l) _ h1 in
    let (_, h3) = fail_if-eq-ok (ltb_ℤ (pos max_u160) (pos (p + x * q96 / l))) _ _ h2 in
    (ground arith, hl)

some_next : (u v : ℤ) → ok u ≡ ok v → v ≡ u
some_next u v h = ground arith

-- An input too small for the way down leaves the price strictly above the target.
pub next_sqrt-down :
    (p t l x : ℕ) (v : ℤ)
    → 0 < t
    → t ≤ p
    → x < input_down (l * q96) p t
    → next_sqrt_from_input (pos p) (pos l) (pos x) true ≡ ok v
    → (w : ℕ) × (v ≡ pos w) × (t < w) × (w ≤ p)
unfolding next_sqrt_from_input
next_sqrt-down p t l x v ht le short h = elim (Bool-cases (x == 0)) [
  | inl z ↦
      let x0 : x ≡ 0 = ground arith in
      let above : t < p = lt_of_mul-lt-mul_left (l * q96) (
        omega (arith, short_product (l * q96) p t x ht le short, ap (λ (k : ℕ). t * (k * p)) x0)) in
      (p, some_next (pos p) v (rw z at h), above, omega arith)
  | inr z ↦
      let (_, h1) =
        fail_if-eq-ok (non_positive (pos l) || bit_len_exceeds (pos l) 128) _ _ (rw z at h) in
      elim (next_sqrt_down-cases p l x v h1) [
        | inl (e, d) ↦ (
          ceil_div (l * q96 * p) (l * q96 + x * p),
          e,
          exact_above (l * q96) p t x ht le d short,
          exact_below (l * q96) p x d,
        )
        | inr (e, hp, d) ↦ (
          ceil_div (l * q96) (l * q96 / p + x),
          e,
          fallback_above (l * q96) p t x ht le d short,
          fallback_below (l * q96) p x hp (ground arith),
        )
      ]
]

pos_factor : (l k : ℕ) → 0 * q96 < l * k → 0 < k
pos_factor l zero h = absurd (omega arith)
pos_factor l (suc k) h = omega arith

-- An input too small for the way up leaves the price strictly below the target.
pub next_sqrt-up :
    (p t l x : ℕ) (v : ℤ)
    → p ≤ t
    → x < ceil_div (l * (t - p)) q96
    → next_sqrt_from_input (pos p) (pos l) (pos x) false ≡ ok v
    → (w : ℕ) × (v ≡ pos w) × (w < t) × (p ≤ w)
unfolding next_sqrt_from_input
next_sqrt-up p t l x v le short h = elim (Bool-cases (x == 0)) [
  | inl z ↦
      let room : 0 < t - p =
        pos_factor l (t - p)
          (lt_of_le (lt_of_lt-ceil_div (l * (t - p)) q96 x (omega arith) short)) in
      (p, some_next (pos p) v (rw z at h), omega arith, omega arith)
  | inr z ↦
      let (_, h1) =
        fail_if-eq-ok (non_positive (pos l) || bit_len_exceeds (pos l) 128) _ _ (rw z at h) in
      let (e, hl) = next_sqrt_up-ok p l x v h1 in
      (p + x * q96 / l, e, up_below l p t x q96 hl (omega arith) le short, omega arith)
]
  where
    lt_of_le : x * q96 < l * (t - p) → 0 * q96 < l * (t - p)
    lt_of_le q = omega arith
