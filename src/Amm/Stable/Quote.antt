-- ===== src/Amm/Stable/Quote.antt =====
-- internal/amm/stable.go, quoteStableIndexed: why its invariant is never zero.
use mathlib.Core.Path.{subst}
use aladdin_solver_engine.Prelude.{
  >>=-eq-ok, All, List, Option, [], ap, arith, fail_if-eq-ok, false, length, negsuc, no_liquidity,
  non_positive, ok, ok-injective, or_fail, pos, refl, suc, ℤ, ◌∷◌, ◌≡◌, ◌≤◌,
}
use aladdin_solver_engine.Amm.Pool.{Pool, require_u256-then}
use aladdin_solver_engine.Amm.Stable.{fp_mul_down, stable_invariant, upscale}
use aladdin_solver_engine.Amm.Stable.Newton.{Positive, stable_invariant-Positive}

not_non_positive : (v : ℤ) → non_positive v ≡ false → Positive v
not_non_positive (pos k) h = (k, refl, ground arith)
not_non_positive (negsuc k) h = absurd (ground arith)

pub upscale-Positive :
    (bs fs : List (Option ℤ)) (out : List ℤ)
    → upscale bs fs ≡ ok out
    → All Positive out × (length out ≡ length bs)
unfolding upscale
upscale-Positive [] fs out h = rw (← ok-injective [] out h) (tt, refl)
upscale-Positive (b ∷ bs) [] out h = cc
upscale-Positive (b ∷ bs) (f ∷ fs) out h =
    let (x, _, _, h1) = require_u256-then _ b _ h in
    let (_, h2) = fail_if-eq-ok (non_positive (pos x)) _ _ h1 in
    let (y, _, _, h3) = require_u256-then _ f _ h2 in
    let (_, h4) = fail_if-eq-ok (non_positive (pos y)) _ _ h3 in
    let (v, _, h5) = >>=-eq-ok (or_fail (fp_mul_down (pos x) (pos y)) no_liquidity) _ h4 in
    let (np, h6) = fail_if-eq-ok (non_positive v) _ _ h5 in
    let (rest, er, h7) = >>=-eq-ok (upscale bs fs) _ h6 in
    let (ps, len) = upscale-Positive bs fs rest er in
    rw (← ok-injective (v ∷ rest) out h7) ((not_non_positive v np, ps), ap suc len)

-- With two tokens or more, the invariant of the upscaled balances is positive whenever it is
-- found, so the branch of the quote that returns neither a value nor an error is not taken.
pub upscaled_invariant-Positive :
    (p : Pool) (amp : ℤ) (balances : List ℤ) (v : ℤ)
    → 2 ≤ length p.balances
    → upscale p.balances p.scaling_factors ≡ ok balances
    → stable_invariant amp balances ≡ ok v
    → Positive v
upscaled_invariant-Positive p amp balances v two up h =
    let (ps, len) = upscale-Positive p.balances p.scaling_factors balances up in
    go balances v ps (rw len two) h
  where
    go :
        (bs : List ℤ) (v : ℤ)
        → All Positive bs
        → 2 ≤ length bs
        → stable_invariant amp bs ≡ ok v
        → Positive v
    go [] v ps le h = absurd (omega arith)
    go (b ∷ []) v ps le h = absurd (omega arith)
    go (b ∷ b' ∷ bs) v ((x, e, hx), ps) le h =
        stable_invariant-Positive amp x b' bs v hx
          (subst (λ (z : ℤ). stable_invariant amp (z ∷ b' ∷ bs) ≡ ok v) e h)
