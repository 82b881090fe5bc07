-- ===== src/Amm/Stable/Newton.antt =====
-- The two Newton iterations: what they return has converged, and the invariant is positive.
use native.Mathlib.Nat.{mul-le-mul_left, mul-le-mul_right, le-div_iff_mul-le, div-eq_of_lt}
use mathlib.Core.Path.{subst}
use aladdin_solver_engine.Prelude.{
  >>=-eq-ok, Bool-cases, List, Result, [], ap, arith, as_step, fail_if-eq-ok, false, if◌then◌else◌,
  inl, inr, is_zero, length, no_liquidity, non_positive, not, ok, ok-injective, or_fail,
  or_fail-eq-ok, pos, refl, suc, sym, true, zero, ℕ, ℤ, ◌*◌, ◌+◌, ◌-◌, ◌/◌, ◌<◌, ◌==◌, ◌>>=◌, ◌∙◌,
  ◌∷◌, ◌≡◌, ◌≤◌, ◌⊎◌,
}
use aladdin_solver_engine.Amm.U256.{add_u256, div_down_u256, is_u256, mul_u256}
use aladdin_solver_engine.Amm.U256.Laws.{
  add_u256-ok, add_u256-then, div_down_u256-ok, div_down_u256-then, mul_u256-ok, mul_u256-then,
  or_fail-add_u256-then, sub_u256-then,
}
use aladdin_solver_engine.Amm.Stable.{
  converged, d_product, invariant_round, invariant_update, iterate, stable_invariant,
  stable_max_iterations, sum_balances,
}

-- A value that the iteration returns is the image of one that it differs from by one at most.
pub iterate-converged :
    (k : ℕ) (round : ℤ → Result ℤ) (s v : ℤ)
    → iterate k round s ≡ ok v
    → (p : ℤ) × (round p ≡ ok v) × (converged v p ≡ true)
unfolding iterate
iterate-converged zero round s v h = cc
iterate-converged (suc k) round s v h =
    let (u, q, h1) = >>=-eq-ok (round s) _ h in
    elim (Bool-cases (converged u s)) [
      | inl c ↦ let e = rw c at h1 in (s, q ∙ e, rw (← ok-injective u v e) c)
      | inr c ↦ iterate-converged k round u v (rw c at h1)
    ]

-- What every round keeps holds of the value returned.
pub iterate-keeps :
    (P : ℤ → Type 0) (k : ℕ) (round : ℤ → Result ℤ) (s v : ℤ)
    → ((u w : ℤ) → P u → round u ≡ ok w → P w)
    → P s
    → iterate k round s ≡ ok v
    → P v
unfolding iterate
iterate-keeps P zero round s v step ps h = cc
iterate-keeps P (suc k) round s v step ps h =
    let (u, q, h1) = >>=-eq-ok (round s) _ h in
    elim (Bool-cases (converged u s)) [
      | inl c ↦ let e = rw c at h1 in rw (← ok-injective u v e) (step s u ps q)
      | inr c ↦ iterate-keeps P k round u v step (step s u ps q) (rw c at h1)
    ]

-- The inner loop at the invariant 1 returns 0: the product is less than any denominator.
zero_product :
    (n : ℕ) (bs : List ℤ) (v : ℤ) → d_product (pos 1) (pos n) bs (pos 0) ≡ ok v → v ≡ pos 0
unfolding d_product
zero_product n [] v h = ground arith
zero_product n (b ∷ bs) v h =
    let (_, h1) = mul_u256-then _ 0 1 h in
    let (d, ed, h2) = >>=-eq-ok (or_fail (mul_u256 b (pos n)) no_liquidity) _ h1 in
    let (_, h3) = fail_if-eq-ok (is_zero d) _ _ h2 in
    let (w, ew, h4) = >>=-eq-ok (div_down_u256 (pos 0) d) _ h3 in
    let (x, y, ex, _, e, hy, _) = div_down_u256-ok (pos 0) d w ew in
    let e0 : w ≡ pos 0 = ground arith in
    zero_product n bs v (subst (λ (z : ℤ). d_product (pos 1) (pos n) bs z ≡ ok v) e0 h4)

first-le : (a s d : ℕ) → 0 < s → (a - 1000) * d / 1000 ≤ a * s / 1000 * d
first-le a s d hs =
    let up : a ≤ a * s = omega (arith, mul-le-mul_left a hs) in
    let low : a - 1000 ≤ 1000 * (a * s / 1000) = omega arith in
    omega (arith, mul-le-mul_right d low)

last-le : (d p n : ℕ) → 0 < n → (2 ≤ d) ⊎ ((d ≡ 1) × (p ≡ 0)) → (n + 1) * p ≤ p * n * d
last-le d p n hn (inl h) = omega (arith, mul-le-mul_left (p * n) h, mul-le-mul_left p hn)
last-le d p n hn (inr (e, z)) = rw (e, z) (omega arith)

-- The denominator is at most the numerator, in numbers.
den-le-num :
    (a s d p n : ℕ)
    → 0 < s
    → 0 < n
    → (2 ≤ d) ⊎ ((d ≡ 1) × (p ≡ 0))
    → (a - 1000) * d / 1000 + (n + 1) * p ≤ (a * s / 1000 + p * n) * d
den-le-num a s d p n hs hn h = omega (arith, first-le a s d hs, last-le d p n hn h)

quotient_pos : (n d : ℕ) → 0 < d → d ≤ n → 0 < n / d
quotient_pos n d hd h = (le-div_iff_mul-le hd).1 (omega arith)

-- The inner loop at the invariant 1, from 1, returns 0 for two or more balances that are positive.
one_product :
    (n : ℕ) (b : ℤ) (bs : List ℤ) (v : ℤ)
    → 2 ≤ n
    → d_product (pos 1) (pos n) (b ∷ bs) (pos 1) ≡ ok v
    → v ≡ pos 0
unfolding d_product
one_product n b bs v two h =
    let (_, h1) = mul_u256-then _ 1 1 h in
    let (d, ed, h2) = >>=-eq-ok (or_fail (mul_u256 b (pos n)) no_liquidity) _ h1 in
    let (nz, h3) = fail_if-eq-ok (is_zero d) _ _ h2 in
    let (x, y, ex, en, exy, _) = mul_u256-ok b (pos n) d (or_fail-eq-ok _ _ ed) in
    let (w, ew, h4) = >>=-eq-ok (div_down_u256 (pos 1) d) _ h3 in
    let (k, m, ek, em, e, hy, _) = div_down_u256-ok (pos 1) d w ew in
    let ny : y ≡ n = ground arith in
    let big : 2 ≤ m = two_le x y m ny two (ground arith) hy in
    let k1 : k ≡ 1 = ground arith in
    let e0 : w ≡ pos 0 = e ∙ rw k1 (small m big) in
    zero_product n bs v (subst (λ (z : ℤ). d_product (pos 1) (pos n) bs z ≡ ok v) e0 h4)
  where
    two_le : (x y m : ℕ) → y ≡ n → 2 ≤ n → x * y ≡ m → 0 < m → 2 ≤ m
    two_le zero y m e t p q = absurd (omega arith)
    two_le (suc x) y m e t p q = omega arith

    small : (m : ℕ) → 2 ≤ m → pos (1 / m) ≡ pos 0
    small m h = ap pos (div-eq_of_lt h)

d_product-pos :
    (d n : ℕ) (bs : List ℤ) (p : ℕ) (v : ℤ)
    → d_product (pos d) (pos n) bs (pos p) ≡ ok v
    → (k : ℕ) × (v ≡ pos k)
unfolding d_product
d_product-pos d n [] p v h = (p, ground arith)
d_product-pos d n (b ∷ bs) p v h =
    let (_, h1) = mul_u256-then _ p d h in
    let (den, ed, h2) = >>=-eq-ok (or_fail (mul_u256 b (pos n)) no_liquidity) _ h1 in
    let (nz, h3) = fail_if-eq-ok (is_zero den) _ _ h2 in
    let (w, ew, h4) = >>=-eq-ok (div_down_u256 (pos (p * d)) den) _ h3 in
    let (k, m, _, _, e, _, _) = div_down_u256-ok (pos (p * d)) den w ew in
    d_product-pos d n bs (k / m) v (subst (λ (z : ℤ). d_product (pos d) (pos n) bs z ≡ ok v) e h4)

-- What the inner loop gives a round: at the invariant 1 the product is 0.
d_product-small :
    (d n : ℕ) (b : ℤ) (bs : List ℤ) (v : ℤ)
    → 0 < d
    → 2 ≤ n
    → d_product (pos d) (pos n) (b ∷ bs) (pos d) ≡ ok v
    → (p : ℕ) × (v ≡ pos p) × ((2 ≤ d) ⊎ ((d ≡ 1) × (p ≡ 0)))
d_product-small zero n b bs v hd two h = absurd (omega arith)
d_product-small (suc zero) n b bs v hd two h = (0, one_product n b bs v two h, inr (refl, refl))
d_product-small (suc (suc d)) n b bs v hd two h =
    let (p, e) = d_product-pos (suc (suc d)) n (b ∷ bs) (suc (suc d)) v h in
    (p, e, inl (omega arith))

invariant_update-pos :
    (a s n d p : ℕ) (v : ℤ)
    → 0 < s
    → 2 ≤ n
    → (2 ≤ d) ⊎ ((d ≡ 1) × (p ≡ 0))
    → invariant_update (pos a) (pos s) (pos n) (pos d) (pos p) ≡ ok v
    → (k : ℕ) × (v ≡ pos k) × (0 < k)
unfolding invariant_update
invariant_update-pos a s n d p v hs two small h1 =
    let (_, h2) = mul_u256-then _ a s h1 in
    let (_, _, h3) = div_down_u256-then _ (a * s) 1000 h2 in
    let (_, h4) = mul_u256-then _ p n h3 in
    let (_, h5) = add_u256-then _ (a * s / 1000) (p * n) h4 in
    let (_, h6) = mul_u256-then _ (a * s / 1000 + p * n) d h5 in
    let (_, _, h7) = sub_u256-then _ a 1000 h6 in
    let (_, h8) = mul_u256-then _ (a - 1000) d h7 in
    let (_, _, h9) = div_down_u256-then _ ((a - 1000) * d) 1000 h8 in
    let (_, h10) = add_u256-then _ n 1 h9 in
    let (_, h11) = mul_u256-then _ (n + 1) p h10 in
    let (_, h12) = or_fail-add_u256-then _ ((a - 1000) * d / 1000) ((n + 1) * p) _ h11 in
    let num : ℕ = (a * s / 1000 + p * n) * d in
    let den : ℕ = (a - 1000) * d / 1000 + (n + 1) * p in
    let (_, h13) = fail_if-eq-ok (non_positive (pos den)) _ _ h12 in
    let (hden, _, h14) = div_down_u256-then ok num den (as_step _ h13) in
    (
      num / den,
      sym (ok-injective _ _ h14),
      quotient_pos num den hden (den-le-num a s d p n hs (omega arith) small),
    )

-- A number that is positive.
abbrev pub Positive : ℤ → Type 0
Positive v = (k : ℕ) × (v ≡ pos k) × (0 < k)

-- A round from a positive value returns a positive value.
invariant_round-Positive :
    (a s n : ℕ) (b : ℤ) (bs : List ℤ) (u v : ℤ)
    → 0 < s
    → 2 ≤ n
    → Positive u
    → invariant_round (pos a) (pos s) (pos n) (b ∷ bs) u ≡ ok v
    → Positive v
unfolding invariant_round
invariant_round-Positive a s n b bs u v hs two (d, eu, hd) h =
    let h0 = subst (λ (z : ℤ). invariant_round (pos a) (pos s) (pos n) (b ∷ bs) z ≡ ok v) eu h in
    let (dp, ep, h1) = >>=-eq-ok (d_product (pos d) (pos n) (b ∷ bs) (pos d)) _ h0 in
    let (p, e, small) = d_product-small d n b bs dp hd two ep in
    invariant_update-pos a s n d p v hs two small
      (subst (λ (z : ℤ). invariant_update (pos a) (pos s) (pos n) (pos d) z ≡ ok v) e h1)

sum_balances-grows :
    (bs : List ℤ) (acc : ℕ) (v : ℤ)
    → sum_balances bs (pos acc) ≡ ok v
    → (k : ℕ) × (v ≡ pos k) × (acc ≤ k)
unfolding sum_balances
sum_balances-grows [] acc v h = (acc, ground arith, omega arith)
sum_balances-grows (b ∷ bs) acc v h =
    let (_, h1) = fail_if-eq-ok (not (is_u256 b)) _ _ h in
    let (w, ew, h2) = >>=-eq-ok (add_u256 (pos acc) b) _ h1 in
    let (x, y, ex, ey, e, _) = add_u256-ok (pos acc) b w ew in
    let (k, ek, le) =
      sum_balances-grows bs (x + y) v (subst (λ (z : ℤ). sum_balances bs z ≡ ok v) e h2) in
    (k, ek, ground arith)

sum_balances-Positive :
    (x : ℕ) (bs : List ℤ) (v : ℤ) → 0 < x → sum_balances (pos x ∷ bs) (pos 0) ≡ ok v → Positive v
unfolding sum_balances
sum_balances-Positive x bs v hx h =
    let (_, h1) = fail_if-eq-ok (not (is_u256 (pos x))) _ _ h in
    let (_, h2) = add_u256-then _ 0 x h1 in
    let (k, e, le) = sum_balances-grows bs (0 + x) v h2 in (k, e, omega (arith, le, hx))

-- The invariant of two or more balances, the first positive, is positive: the code's return of
-- no value beside no error is not reached by it.
pub stable_invariant-Positive :
    (amp : ℤ) (x : ℕ) (b : ℤ) (bs : List ℤ) (v : ℤ)
    → 0 < x
    → stable_invariant amp (pos x ∷ b ∷ bs) ≡ ok v
    → Positive v
unfolding stable_invariant
stable_invariant-Positive amp x b bs v hx h =
    let (_, h1) = fail_if-eq-ok (not (is_u256 amp)) _ _ h in
    let (sum, es, h2) = >>=-eq-ok (sum_balances (pos x ∷ b ∷ bs) (pos 0)) _ h1 in
    let (s, e, hs) = sum_balances-Positive x (b ∷ bs) sum hx es in
    let h3 =
      subst
        (λ (z : ℤ).
          (if is_zero z then ok (pos 0) else (do
            amp_times_total ← mul_u256 amp (pos (length (pos x ∷ b ∷ bs)))
            iterate stable_max_iterations
                (invariant_round amp_times_total z (pos (length (pos x ∷ b ∷ bs))) (pos x ∷ b ∷ bs))
                z))
          ≡ ok v)
        e h2 in
    let nz : (s == 0) ≡ false = ground arith in
    let (at, ea, h4) = >>=-eq-ok (mul_u256 amp (pos (length (pos x ∷ b ∷ bs)))) _ (rw nz at h3) in
    let (a, n, _, _, e2, _) = mul_u256-ok amp (pos (length (pos x ∷ b ∷ bs))) at ea in
    iterate-keeps Positive stable_max_iterations
      (invariant_round at (pos s) (pos (length (pos x ∷ b ∷ bs))) (pos x ∷ b ∷ bs)) (pos s) v
      (λ u w pu hu.
        invariant_round-Positive (a * n) s (length (pos x ∷ b ∷ bs)) (pos x) (b ∷ bs) u w hs
          (omega arith) pu
          (subst
            (λ (z : ℤ).
              invariant_round z (pos s) (pos (length (pos x ∷ b ∷ bs))) (pos x ∷ b ∷ bs) u ≡ ok w)
            e2 hu))
      (s, refl, hs) h4
