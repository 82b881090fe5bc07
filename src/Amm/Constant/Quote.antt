-- ===== src/Amm/Constant/Quote.antt =====
-- What a constant-product quote that succeeds is.
use native.Mathlib.Nat.{div-mul-le_self}
use aladdin_solver_engine.Amm.Pool.{Pool, require_u256-then}
use aladdin_solver_engine.Prelude.{
  Bool-cases, Option, Text, arith, equal_fold, fail_if-eq-ok, if◌then◌else◌, inl, inr, leb, leb_ℤ,
  le→leb, non_positive, ok, pos, some, true, ℕ, ℤ, ◌*◌, ◌+◌, ◌-◌, ◌<◌, ◌||◌, ◌≡◌, ◌≤◌,
}
use aladdin_solver_engine.Amm.U256.Laws.{
  mul_u256-then, or_fail-add_u256-then, or_fail-div_down_u256-then, or_fail-sub_u256-then,
}
use aladdin_solver_engine.Amm.Constant.{constant_product_out, quote_constant_product}
use aladdin_solver_engine.Amm.Constant.Math.{formula, formula_mono, mul_pos, product_kept}

-- `x` and `y` are the reserves of the input and the output token, `n / d` the fee, `a` the input
-- and `o` the output: `o` is the formula rounded down, positive, and below the reserve.
pub record Priced (x y n d a o : ℕ) : Type 0 where
  pub fee_below_one : n < d
  pub reserve_in_pos : 0 < x
  pub output_pos : 0 < o
  pub output_lt_reserve : o < y
  pub exact : o ≡ formula x y (d - n) d a

pub constant_product_out-Priced :
    (x y n d a : ℕ) (out : ℤ)
    → constant_product_out (pos x) (pos y) (pos n) (pos d) (pos a) ≡ ok out
    → (o : ℕ) × (out ≡ pos o) × Priced x y n d a o
unfolding constant_product_out
constant_product_out-Priced x y n d a out h =
    let (nz, h0) = fail_if-eq-ok (non_positive (pos x) || non_positive (pos y)) _ _ h in
    let (n_le_d, _, h1) = or_fail-sub_u256-then _ d n _ h0 in
    let (keep_pos, h2) = fail_if-eq-ok (non_positive (pos (d - n))) _ _ h1 in
    let (_, h3) = mul_u256-then _ a (d - n) h2 in
    let (_, h4) = mul_u256-then _ (a * (d - n)) y h3 in
    let (_, h5) = mul_u256-then _ x d h4 in
    let (_, h6) = or_fail-add_u256-then _ (x * d) (a * (d - n)) _ h5 in
    let (_, h7) = fail_if-eq-ok (non_positive (pos (x * d + a * (d - n)))) _ _ h6 in
    let (_, _, h8) = or_fail-div_down_u256-then _ (a * (d - n) * y) (x * d + a * (d - n)) _ h7 in
    let (fits, h9) =
      fail_if-eq-ok
        (non_positive (pos (formula x y (d - n) d a)) || leb y (formula x y (d - n) d a)) _ _ h8 in
    (formula x y (d - n) d a, ground arith, ground arith)

Priced-product_kept : (x y n d a o : ℕ) → Priced x y n d a o → x * y ≤ (x + a) * (y - o)
Priced-product_kept x y n d a o priced =
    product_kept x y (d - n) d a o (ground arith) (ground arith) (ground arith)
      (rw priced.exact (div-mul-le_self (a * (d - n) * y) (x * d + a * (d - n))))

-- The reserve of the input token and that of the output token, when `token_in` is sold.
abbrev pub reserve_in_of : Pool → Text → Option ℤ
reserve_in_of p token_in = if equal_fold token_in p.token_b then p.reserve_b else p.reserve_a

abbrev pub reserve_out_of : Pool → Text → Option ℤ
reserve_out_of p token_in = if equal_fold token_in p.token_b then p.reserve_a else p.reserve_b

-- A quote of `out` for `a`, seen from outside: the pool has such reserves and such a fee.
abbrev pub QuoteIs : Pool → Text → ℕ → ℤ → Type 0
QuoteIs p token_in a out =
    (x : ℕ) × (y : ℕ) × (n : ℕ) × (d : ℕ) × (o : ℕ) × (out ≡ pos o)
    × (reserve_in_of p token_in ≡ some (pos x))
    × (reserve_out_of p token_in ≡ some (pos y))
    × (p.fee_num ≡ some (pos n))
    × (p.fee_den ≡ some (pos d))
    × Priced x y n d a o

-- A constant-product quote that succeeds is the formula of the two reserves, rounded down; it is
-- positive and below the reserve of the output token.
pub quote_constant_product-QuoteIs :
    (p : Pool) (token_in : Text) (a : ℕ) (out : ℤ)
    → quote_constant_product p token_in (pos a) ≡ ok out
    → QuoteIs p token_in a out
unfolding quote_constant_product
quote_constant_product-QuoteIs p token_in a out h =
    let (x, px, _, h1) = require_u256-then _ p.reserve_a _ h in
    let (y, py, _, h2) = require_u256-then _ p.reserve_b _ h1 in
    let (n, pn, _, h3) = require_u256-then _ p.fee_num _ h2 in
    let (d, pd, _, h4) = require_u256-then _ p.fee_den _ h3 in
    let (_, h5) = fail_if-eq-ok (non_positive (pos d)) _ _ h4 in go x y n d px py pn pd h5
  where
    go :
        (x y n d : ℕ)
        → p.reserve_a ≡ some (pos x)
        → p.reserve_b ≡ some (pos y)
        → p.fee_num ≡ some (pos n)
        → p.fee_den ≡ some (pos d)
        → constant_product_out
            (if equal_fold token_in p.token_b then pos y else pos x)
            (if equal_fold token_in p.token_b then pos x else pos y)
            (pos n)
            (pos d)
            (pos a)
          ≡ ok out
        → QuoteIs p token_in a out
    go x y n d px py pn pd h = elim (Bool-cases (equal_fold token_in p.token_b)) [
      | inl e ↦
          let (o, eo, priced) = constant_product_out-Priced y x n d a out (rw e at h) in
          (y, x, n, d, o, eo, rw e py, rw e px, pn, pd, priced)
      | inr e ↦
          let (o, eo, priced) = constant_product_out-Priced x y n d a out (rw e at h) in
          (x, y, n, d, o, eo, rw e px, rw e py, pn, pd, priced)
    ]

-- A fill at the quote leaves a product of the reserves at least as large as before it.
pub quote_constant_product-product_kept :
    (p : Pool) (token_in : Text) (a x y : ℕ) (out : ℤ)
    → reserve_in_of p token_in ≡ some (pos x)
    → reserve_out_of p token_in ≡ some (pos y)
    → quote_constant_product p token_in (pos a) ≡ ok out
    → (o : ℕ) × (out ≡ pos o) × (x * y ≤ (x + a) * (y - o))
quote_constant_product-product_kept p token_in a x y out ex ey h =
    let (x', y', n, d, o, eo, ex', ey', _, _, priced) =
      quote_constant_product-QuoteIs p token_in a out h in
    let same_x : x' ≡ x = ground arith in
    let same_y : y' ≡ y = ground arith in
    (o, eo, rw (← same_x, ← same_y) (Priced-product_kept x' y' n d a o priced))

-- Selling more never buys less: of two quotes that succeed, the one for the larger input is at
-- least as large.
pub quote_constant_product_mono :
    (p : Pool) (token_in : Text) (a b : ℕ) (out out' : ℤ)
    → a ≤ b
    → quote_constant_product p token_in (pos a) ≡ ok out
    → quote_constant_product p token_in (pos b) ≡ ok out'
    → leb_ℤ out out' ≡ true
quote_constant_product_mono p token_in a b out out' le h k =
    let (x, y, n, d, o, eo, ex, ey, en, ed, q) =
      quote_constant_product-QuoteIs p token_in a out h in
    let (x', y', n', d', o', eo', ex', ey', en', ed', q') =
      quote_constant_product-QuoteIs p token_in b out' k in
    let same_x : x' ≡ x = ground arith in
    let same_y : y' ≡ y = ground arith in
    let same_n : n' ≡ n = ground arith in
    let same_d : d' ≡ d = ground arith in
    rw (eo, eo')
      (le→leb o o' (
        rw (q.exact, q'.exact, same_x, same_y, same_n, same_d)
          (formula_mono x y (d - n) d a b
            (mul_pos x d q.reserve_in_pos (omega (arith, q.fee_below_one))) le)))
