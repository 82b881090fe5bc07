-- ===== src/Amm/U256.antt =====
-- internal/amm/u256.go: checked arithmetic on 256-bit unsigned integers.
pub mod Laws
use aladdin_solver_engine.Prelude.{
  Bool, Result, division_by_zero, fail_if, if◌then◌else◌, is_zero, leb_ℤ, ltb_ℤ, not, ok, pos, quo,
  u256_overflow, u256_underflow, ℕ, ℤ, ◌&&◌, ◌*ℤ◌, ◌+ℤ◌, ◌-ℤ◌, ◌-◌, ◌>>◌, ◌^◌,
}

-- `maxU256`.
abbrev pub max_u256 : ℕ
max_u256 = 2 ^ 256 - 1

unfoldable pub is_u256 : ℤ → Bool
is_u256 value = not (ltb_ℤ value (pos 0)) && leb_ℤ value (pos max_u256)

unfoldable pub add_u256 : ℤ → ℤ → Result ℤ
unfolding is_u256
add_u256 a b = do
  fail_if (not (is_u256 a && is_u256 b)) u256_overflow
  let result = a +ℤ b
  fail_if (not (is_u256 result)) u256_overflow
  ok result

unfoldable pub sub_u256 : ℤ → ℤ → Result ℤ
unfolding is_u256
sub_u256 a b = do
  fail_if (not (is_u256 a && is_u256 b)) u256_overflow
  fail_if (ltb_ℤ a b) u256_underflow
  ok (a -ℤ b)

unfoldable pub mul_u256 : ℤ → ℤ → Result ℤ
unfolding is_u256
mul_u256 a b = do
  fail_if (not (is_u256 a && is_u256 b)) u256_overflow
  let result = a *ℤ b
  fail_if (not (is_u256 result)) u256_overflow
  ok result

unfoldable pub div_down_u256 : ℤ → ℤ → Result ℤ
unfolding is_u256
div_down_u256 a b = do
  fail_if (not (is_u256 a && is_u256 b)) u256_overflow
  fail_if (is_zero b) division_by_zero
  ok (quo a b)

-- The quotient of `QuoRem`, one more if the remainder is not zero.
unfoldable pub quo_up : ℤ → ℤ → ℤ
quo_up a b =
    let quotient = quo a b in if is_zero (a -ℤ quotient *ℤ b) then quotient else quotient +ℤ pos 1

unfoldable pub div_up_u256 : ℤ → ℤ → Result ℤ
unfolding is_u256 quo_up
div_up_u256 a b = do
  fail_if (not (is_u256 a && is_u256 b)) u256_overflow
  fail_if (is_zero b) division_by_zero
  let quotient = quo_up a b
  fail_if (not (is_u256 quotient)) u256_overflow
  ok quotient
