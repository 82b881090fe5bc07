-- ===== src/Amm/TickMath.antt =====
-- internal/amm/amm.go, GetSqrtRatioAtTick: the price of a tick, by the factors of its binary digits.
pub mod Bounds
use aladdin_solver_engine.Prelude.{
  Bool, List, Result, [], abs, fail_if, if◌then◌else◌, ltb_ℤ, neg_ℤ, not, ok, pos,
  sqrt_ratio_overflow, tick_out_of_range, ℕ, ℤ, ◌%◌, ◌*◌, ◌+◌, ◌/◌, ◌==◌, ◌>>◌, ◌^◌, ◌||◌, ◌∷◌,
}
use aladdin_solver_engine.Amm.U256.{max_u256, quo_up}
use aladdin_solver_engine.Amm.Swap.{max_u160}

abbrev pub max_tick : ℕ
max_tick = 887272

abbrev pub two128 : ℕ
two128 = 2 ^ 128

-- `tickFactors`, the first apart from the others.
abbrev pub first_factor : ℕ
first_factor = 0xfffcb933bd6fad37aa2d162d1a594001

abbrev pub other_factors : List ℕ
other_factors =
    0xfff97272373d413259a46990580e213a ∷ 0xfff2e50f5f656932ef12357cf3c7fdcc
    ∷ 0xffe5caca7e10e4e61c3624eaa0941cd0 ∷ 0xffcb9843d60f6159c9db58835c926644
    ∷ 0xff973b41fa98c081472e6896dfb254c0 ∷ 0xff2ea16466c96a3843ec78b326b52861
    ∷ 0xfe5dee046a99a2a811c461f1969c3053 ∷ 0xfcbe86c7900a88aedcffc83b479aa3a4
    ∷ 0xf987a7253ac413176f2b074cf7815e54 ∷ 0xf3392b0822b70005940c7a398e4b70f3
    ∷ 0xe7159475a2c29b7443b29c7fa6e889d9 ∷ 0xd097f3bdfd2022b8845ad8f792aa5825
    ∷ 0xa9f746462d870fdf8a65dc1f90e061e5 ∷ 0x70d869a156d2a1b890bb3df62baf32f7
    ∷ 0x31be135f97d08fd981231505542fcfa6 ∷ 0x9aa508b5b7a84e1c677de54f3e99bc9
    ∷ 0x5d6af8dedb81196699c329225ee604 ∷ 0x2216e584f5fa1ea926041bedfe98 ∷ 0x48a170391f7dc42444e8fa2
    ∷ []

-- `absolute & (1 << i) != 0`.
abbrev pub bit_set : ℕ → ℕ → Bool
bit_set absolute i = not (absolute / 2 ^ i % 2 == 0)

-- The loop over the factors from index `i` on.
unfoldable pub apply_factors : ℕ → ℕ → List ℕ → ℕ → ℕ
apply_factors absolute i [] ratio = ratio
apply_factors absolute i (factor ∷ rest) ratio =
    apply_factors absolute (i + 1) rest
      (if bit_set absolute i then ratio * factor / two128 else ratio)

-- The ratio scaled by 2 ^ 128 of the tick `-absolute`.
unfoldable pub ratio_of : ℕ → ℕ
unfolding apply_factors
ratio_of absolute =
    apply_factors absolute 1 other_factors (if bit_set absolute 0 then first_factor else two128)

-- `tick > 0`.
abbrev pub positive : ℤ → Bool
positive tick = ltb_ℤ (pos 0) tick

unfoldable pub get_sqrt_ratio_at_tick : ℤ → Result ℤ
get_sqrt_ratio_at_tick tick = do
  fail_if (ltb_ℤ tick (neg_ℤ (pos max_tick)) || ltb_ℤ (pos max_tick) tick) tick_out_of_range
  let ratio = ratio_of (abs tick)
  let directed = if positive tick then max_u256 / ratio else ratio
  let quotient = quo_up (pos directed) (pos (2 ^ 32))
  fail_if (ltb_ℤ (pos max_u160) quotient) sqrt_ratio_overflow
  ok quotient
