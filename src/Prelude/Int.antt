-- ===== src/Prelude/Int.antt =====
-- Signed integers over the native numbers: the values of a `*big.Int` that is not nil.
use Prim.Native.Nat.{ℕ, ◌+◌, ◌-◌, ◌*◌, ◌/◌, ◌^◌}
use mathlib.Core.Bool.{Bool, true, false}
use aladdin_solver_engine.Prelude.Tests.{if◌then◌else◌, leb, ltb, ◌==◌}

-- `negsuc n` is -(n + 1).
pub data ℤ : Type 0 where
  pos : ℕ → ℤ
  negsuc : ℕ → ℤ

-- a - b, as an integer.
abbrev pub sub_ℕ : ℕ → ℕ → ℤ
sub_ℕ a b = if leb b a then pos (a - b) else negsuc (b - a - 1)

infixl 65 ◌+ℤ◌ ◌-ℤ◌
infixl 70 ◌*ℤ◌
abbrev pub ◌+ℤ◌ : ℤ → ℤ → ℤ
pos a +ℤ pos b = pos (a + b)
pos a +ℤ negsuc b = sub_ℕ a (b + 1)
negsuc a +ℤ pos b = sub_ℕ b (a + 1)
negsuc a +ℤ negsuc b = negsuc (a + b + 1)

abbrev pub neg_ℤ : ℤ → ℤ
neg_ℤ (pos a) = sub_ℕ 0 a
neg_ℤ (negsuc a) = pos (a + 1)

abbrev pub ◌-ℤ◌ : ℤ → ℤ → ℤ
pos a -ℤ pos b = sub_ℕ a b
pos a -ℤ negsuc b = pos (a + b + 1)
negsuc a -ℤ pos b = negsuc (a + b)
negsuc a -ℤ negsuc b = sub_ℕ b a

abbrev pub ◌*ℤ◌ : ℤ → ℤ → ℤ
pos a *ℤ pos b = pos (a * b)
pos a *ℤ negsuc b = neg_ℤ (pos (a * (b + 1)))
negsuc a *ℤ pos b = neg_ℤ (pos ((a + 1) * b))
negsuc a *ℤ negsuc b = pos ((a + 1) * (b + 1))

-- `Quo`, the division that rounds towards zero; its callers have tested the divisor.
abbrev pub quo : ℤ → ℤ → ℤ
quo (pos a) (pos b) = pos (a / b)
quo (pos a) (negsuc b) = neg_ℤ (pos (a / (b + 1)))
quo (negsuc a) (pos b) = neg_ℤ (pos ((a + 1) / b))
quo (negsuc a) (negsuc b) = pos ((a + 1) / (b + 1))

-- The absolute value.
abbrev pub abs : ℤ → ℕ
abs (pos a) = a
abs (negsuc a) = a + 1

-- `a.Cmp(b) <= 0` and `a.Cmp(b) < 0`.
abbrev pub leb_ℤ : ℤ → ℤ → Bool
leb_ℤ (pos a) (pos b) = leb a b
leb_ℤ (pos a) (negsuc b) = false
leb_ℤ (negsuc a) (pos b) = true
leb_ℤ (negsuc a) (negsuc b) = leb b a

abbrev pub ltb_ℤ : ℤ → ℤ → Bool
ltb_ℤ (pos a) (pos b) = ltb a b
ltb_ℤ (pos a) (negsuc b) = false
ltb_ℤ (negsuc a) (pos b) = true
ltb_ℤ (negsuc a) (negsuc b) = ltb b a

abbrev pub eqb_ℤ : ℤ → ℤ → Bool
eqb_ℤ (pos a) (pos b) = a == b
eqb_ℤ (negsuc a) (negsuc b) = a == b
eqb_ℤ (pos a) (negsuc b) = false
eqb_ℤ (negsuc a) (pos b) = false

-- `a.Sign() <= 0`, `a.Sign() < 0` and `a.Sign() == 0`.
abbrev pub non_positive : ℤ → Bool
non_positive (pos a) = a == 0
non_positive (negsuc a) = true

abbrev pub negative : ℤ → Bool
negative (pos a) = false
negative (negsuc a) = true

abbrev pub is_zero : ℤ → Bool
is_zero (pos a) = a == 0
is_zero (negsuc a) = false

-- `a.BitLen() > k`, for a numeral `k`.
abbrev pub bit_len_exceeds : ℤ → ℕ → Bool
bit_len_exceeds a k = leb (2 ^ k) (abs a)
