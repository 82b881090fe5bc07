-- ===== src/Amm/U256/Laws.antt =====
-- What a checked operation that succeeds returns: the exact result, within 256 bits.
use aladdin_solver_engine.Prelude.{
  Error, Result, arith, negsuc, ok, or_fail, pos, refl, ℕ, ℤ, ◌*◌, ◌+◌, ◌-◌, ◌/◌, ◌<◌, ◌>>=◌, ◌≡◌,
  ◌≤◌,
}
use aladdin_solver_engine.Amm.U256.{add_u256, div_down_u256, max_u256, mul_u256, sub_u256}

-- `n / d` rounded up; `n` for `d = 0`.
unfoldable pub div_up : ℕ → ℕ → ℕ
div_up n d = (n + (d - 1)) / d

pub add_u256-ok :
    (a b c : ℤ)
    → add_u256 a b ≡ ok c
    → (x : ℕ) × (y : ℕ) × (a ≡ pos x) × (b ≡ pos y) × (c ≡ pos (x + y)) × (x + y ≤ max_u256)
unfolding add_u256
add_u256-ok (pos x) (pos y) c h = (x, y, refl, refl, ground arith, ground arith)
add_u256-ok (pos x) (negsuc y) c h = absurd (ground arith)
add_u256-ok (negsuc x) b c h = absurd (ground arith)

pub sub_u256-ok :
    (a b c : ℤ)
    → sub_u256 a b ≡ ok c
    → (x : ℕ) × (y : ℕ) × (a ≡ pos x) × (b ≡ pos y) × (c ≡ pos (x - y)) × (y ≤ x) × (x ≤ max_u256)
unfolding sub_u256
sub_u256-ok (pos x) (pos y) c h = (x, y, refl, refl, ground arith, ground arith, ground arith)
sub_u256-ok (pos x) (negsuc y) c h = absurd (ground arith)
sub_u256-ok (negsuc x) b c h = absurd (ground arith)

pub mul_u256-ok :
    (a b c : ℤ)
    → mul_u256 a b ≡ ok c
    → (x : ℕ) × (y : ℕ) × (a ≡ pos x) × (b ≡ pos y) × (c ≡ pos (x * y)) × (x * y ≤ max_u256)
unfolding mul_u256
mul_u256-ok (pos x) (pos y) c h = (x, y, refl, refl, ground arith, ground arith)
mul_u256-ok (pos x) (negsuc y) c h = absurd (ground arith)
mul_u256-ok (negsuc x) b c h = absurd (ground arith)

pub div_down_u256-ok :
    (a b c : ℤ)
    → div_down_u256 a b ≡ ok c
    → (x : ℕ) × (y : ℕ) × (a ≡ pos x) × (b ≡ pos y) × (c ≡ pos (x / y)) × (0 < y) × (x ≤ max_u256)
unfolding div_down_u256
div_down_u256-ok (pos x) (pos y) c h = (x, y, refl, refl, ground arith, ground arith, ground arith)
div_down_u256-ok (pos x) (negsuc y) c h = absurd (ground arith)
div_down_u256-ok (negsuc x) b c h = absurd (ground arith)

-- The same for a step of a chain that succeeds, at numbers that are not negative: the chain goes
-- on from the exact result.
module _ {B : Type 0} (f : ℤ → Result B) {r : B} (x y : ℕ) where
  pub add_u256-then :
      (add_u256 (pos x) (pos y) >>= f) ≡ ok r → (x + y ≤ max_u256) × (f (pos (x + y)) ≡ ok r)
  unfolding add_u256
  add_u256-then h = ground arith

  pub sub_u256-then :
      (sub_u256 (pos x) (pos y) >>= f) ≡ ok r → (y ≤ x) × (x ≤ max_u256) × (f (pos (x - y)) ≡ ok r)
  unfolding sub_u256
  sub_u256-then h = ground arith

  pub mul_u256-then :
      (mul_u256 (pos x) (pos y) >>= f) ≡ ok r → (x * y ≤ max_u256) × (f (pos (x * y)) ≡ ok r)
  unfolding mul_u256
  mul_u256-then h = ground arith

  pub div_down_u256-then :
      (div_down_u256 (pos x) (pos y) >>= f) ≡ ok r
      → (0 < y) × (x ≤ max_u256) × (f (pos (x / y)) ≡ ok r)
  unfolding div_down_u256
  div_down_u256-then h = ground arith

  pub or_fail-add_u256-then :
      (e : Error)
      → (or_fail (add_u256 (pos x) (pos y)) e >>= f) ≡ ok r
      → (x + y ≤ max_u256) × (f (pos (x + y)) ≡ ok r)
  unfolding add_u256
  or_fail-add_u256-then e h = ground arith

  pub or_fail-sub_u256-then :
      (e : Error)
      → (or_fail (sub_u256 (pos x) (pos y)) e >>= f) ≡ ok r
      → (y ≤ x) × (x ≤ max_u256) × (f (pos (x - y)) ≡ ok r)
  unfolding sub_u256
  or_fail-sub_u256-then e h = ground arith

  pub or_fail-div_down_u256-then :
      (e : Error)
      → (or_fail (div_down_u256 (pos x) (pos y)) e >>= f) ≡ ok r
      → (0 < y) × (x ≤ max_u256) × (f (pos (x / y)) ≡ ok r)
  unfolding div_down_u256
  or_fail-div_down_u256-then e h = ground arith
