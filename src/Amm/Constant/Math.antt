-- ===== src/Amm/Constant/Math.antt =====
-- The arithmetic of the constant-product formula.
use native.Mathlib.Nat.{mul-le-mul_left, mul-le-mul_right, div-mul-le_self}
use aladdin_solver_engine.Prelude.{ap, arith, ℕ, ◌*◌, ◌+◌, ◌-◌, ◌/◌, ◌<◌, ◌≡◌, ◌≤◌}

-- The rounded output for `a` in, of which `k` of every `d` parts are kept.
abbrev pub formula : (x y k d a : ℕ) → ℕ
formula x y k d a = a * k * y / (x * d + a * k)

cancel-le : (a b d : ℕ) → 0 < d → a * d ≤ b * d → a ≤ b
cancel-le a b d h p = grind arith

le_div : (q n m : ℕ) → 0 < m → q * m ≤ n → q ≤ n / m
le_div q n m h p = grind arith

kept_gap : (x r k d a o : ℕ) → 0 < d → k ≤ d → o * (x * d + a * k) ≤ a * k * (o + r) → x * o ≤ a * r
kept_gap x r k d a o hd hk h =
    cancel-le (x * o) (a * r) d hd (omega (arith, h, mul-le-mul_left (a * r) hk))

-- The product of the reserves does not fall.
pub product_kept :
    (x y k d a o : ℕ)
    → 0 < d
    → k ≤ d
    → o ≤ y
    → o * (x * d + a * k) ≤ a * k * y
    → x * y ≤ (x + a) * (y - o)
product_kept x y k d a o hd hk ho h =
    let e : y ≡ o + (y - o) = omega arith in
    let gap : x * o ≤ a * (y - o) =
      kept_gap x (y - o) k d a o hd hk (omega (arith, h, ap (λ (t : ℕ). a * k * t) e)) in
    omega (arith, gap, ap (λ (t : ℕ). x * t) e)

cross_mono :
    (q x y k d a b : ℕ)
    → a ≤ b
    → q * (x * d + a * k) ≤ a * k * y
    → q * (x * d + b * k) * (x * d + a * k) ≤ b * k * y * (x * d + a * k)
cross_mono q x y k d a b h p =
    omega (arith, mul-le-mul_right (x * d + b * k) p, mul-le-mul_right (k * y * x * d) h)

pub formula_mono : (x y k d a b : ℕ) → 0 < x * d → a ≤ b → formula x y k d a ≤ formula x y k d b
formula_mono x y k d a b hx h = le_div _ _ _ (omega arith) (
    cancel-le _ _ (x * d + a * k) (omega arith)
      (cross_mono _ x y k d a b h (div-mul-le_self (a * k * y) (x * d + a * k))))

pub mul_pos : (x d : ℕ) → 0 < x → 0 < d → 0 < x * d
mul_pos x d h k = grind arith
