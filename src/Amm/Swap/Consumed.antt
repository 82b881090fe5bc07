-- ===== src/Amm/Swap/Consumed.antt =====
-- What a step of a swap consumes, and where it leaves the price.
use native.Mathlib.Nat.{div-mul-le_self, mul-le-mul_left, mul-le-mul_right, le_of_mul-le-mul_right}
use mathlib.Core.Path.{subst}
use aladdin_solver_engine.Prelude.{
  ==_iff, >>=-eq-ok, Bool, Bool-cases, ap, arith, fail_if-eq-ok, false, if◌then◌else◌, inl, inr,
  leb, leb_ℤ, leb→le, ltb, non_positive, ok, pos, refl, true, ℕ, ℤ, ◌*◌, ◌+◌, ◌-◌, ◌/◌, ◌<◌, ◌==◌,
  ◌>>=◌, ◌≡◌, ◌≢◌, ◌≤◌,
}
use aladdin_solver_engine.Amm.U256.{sub_u256}
use aladdin_solver_engine.Amm.U256.Laws.{or_fail-sub_u256-then, sub_u256-then}
use aladdin_solver_engine.Amm.Swap.{
  SwapStep, amount0_delta, amount1_delta, compute_swap_step, finish_step, input_between, million,
  next_sqrt_from_input, output_between, q96,
}
use aladdin_solver_engine.Amm.Swap.Laws.{ceil_div, ceil_div-le, mul_div-then, mul_div_up-then}
use aladdin_solver_engine.Amm.Swap.Math.{input_down}
use aladdin_solver_engine.Amm.Swap.Step.{
  amount0_between-up, amount1_between-up, next_sqrt-down, next_sqrt-up,
}

-- A step from the price `current` towards `target` with `remaining` input: it ends at `next`,
-- takes `spent` for the pool and `fee` on top.
pub record Stepped (current target remaining next spent fee : ℕ) : Type 0 where
  pub within : spent + fee ≤ remaining
  pub all_spent : next ≢ target → spent + fee ≡ remaining
  pub down : target ≤ current → (target ≤ next) × (next ≤ current)
  pub up : current < target → (current ≤ next) × (next ≤ target)

-- The fee on top of a fully paid move fits the input: `k` parts of a million are kept.
pub fee_within :
    (s r f k : ℕ) → 0 < k → f + k ≡ million → s ≤ r * k / million → s + ceil_div (s * f) k ≤ r
fee_within s r f k hk split h =
    let paid : s * million ≤ r * k =
      omega (arith, mul-le-mul_right million h, div-mul-le_self (r * k) million) in
    let small : s ≤ r =
      le_of_mul-le-mul_right {m = s} {n = r} {k = million}
        (omega (arith, paid, mul-le-mul_left r (kept split))) (omega arith) in
    let rest : (r - s) + s ≡ r = omega arith in
    let fee : ceil_div (s * f) k ≤ r - s =
      ceil_div-le (s * f) k (r - s) hk
        (omega (arith, paid, ap (λ (t : ℕ). s * t) split, ap (λ (t : ℕ). t * k) rest)) in
    omega arith
  where
    kept : f + k ≡ million → k ≤ million
    kept e = omega arith

-- The same of the record that the code returns, whose numbers are not negative.
abbrev pub IsStepped : (current target remaining : ℕ) → SwapStep → Type 0
IsStepped current target remaining s =
    (next : ℕ) × (spent : ℕ) × (fee : ℕ) × (s.next ≡ pos next)
    × (s.amount_in ≡ pos spent)
    × (s.fee ≡ pos fee)
    × Stepped current target remaining next spent fee

-- `finish_step` at the target itself: the move is paid in full and the fee comes on top.
finish_step-maxed :
    (zero_for_one : Bool) (c t l r f k full : ℕ) (s : SwapStep)
    → f + k ≡ million
    → full ≤ r * k / million
    → finish_step zero_for_one (pos c) (pos t) (pos l) (pos r) (pos f) (pos k) (pos full) (pos t)
      ≡ ok s
    → IsStepped c t r s
unfolding finish_step
finish_step-maxed zero_for_one c t l r f k full s split paid h =
    let (out, _, h1) =
      >>=-eq-ok (output_between zero_for_one (pos c) (pos t) (pos l)) _
        (rw ((==_iff t t).1 refl) at h) in
    let (hk, h2) = mul_div_up-then _ full f k h1 in
    (
      t,
      full,
      ceil_div (full * f) k,
      ground arith,
      ground arith,
      ground arith,
      record {
        within = fee_within full r f k hk split paid;
        all_spent = λ n. absurd (n refl);
        down = λ d. (omega arith, d);
        up = λ u. (omega arith, omega arith);
      },
    )

-- `finish_step` short of the target: whatever the move did not take is the fee.
finish_step-partial :
    (zero_for_one : Bool) (c t l r f k full w : ℕ) (s : SwapStep)
    → w ≢ t
    → (t ≤ c → (t ≤ w) × (w ≤ c))
    → (c < t → (c ≤ w) × (w ≤ t))
    → ((v : ℤ) → input_between zero_for_one (pos c) (pos w) (pos l) ≡ ok v → (n : ℕ) × (v ≡ pos n))
    → finish_step zero_for_one (pos c) (pos t) (pos l) (pos r) (pos f) (pos k) (pos full) (pos w)
      ≡ ok s
    → IsStepped c t r s
unfolding finish_step
finish_step-partial zero_for_one c t l r f k full w s ne d u num h =
    let differs : (w == t) ≡ false = ground arith in
    let (v, ev, h0) =
      >>=-eq-ok (input_between zero_for_one (pos c) (pos w) (pos l)) _ (rw differs at h) in
    let (spent, es) = num v ev in
    let (out, _, h1) = >>=-eq-ok (output_between zero_for_one (pos c) (pos w) (pos l)) _ h0 in
    let (le, _, h2) = sub_u256-then _ r spent (
      subst
        (λ (z : ℤ).
          (sub_u256 (pos r) z >>= λ fee.
          ok (record { next = pos w; amount_in = z; amount_out = out; fee = fee }))
          ≡ ok s)
        es h1) in
    (
      w,
      spent,
      r - spent,
      ground arith,
      ground arith,
      ground arith,
      record { within = omega arith; all_spent = λ n. omega arith; down = d; up = u },
    )

input_down-ok :
    (c w l : ℕ) (v : ℤ)
    → w ≤ c
    → input_between true (pos c) (pos w) (pos l) ≡ ok v
    → (v ≡ pos (input_down (l * q96) c w)) × (0 < w)
unfolding input_between amount0_delta
input_down-ok c w l v le h =
    let ordered : ltb c w ≡ false = ground arith in amount0_between-up w c l v (rw ordered at h)

input_up-ok :
    (c w l : ℕ) (v : ℤ)
    → c ≤ w
    → input_between false (pos c) (pos w) (pos l) ≡ ok v
    → v ≡ pos (ceil_div (l * (w - c)) q96)
unfolding input_between amount1_delta
input_up-ok c w l v le h =
    let ordered : ltb w c ≡ false = ground arith in amount1_between-up c w l v (rw ordered at h)

-- The rest of the step once the way to the target has been priced at `full`.
module _ (c t l r f k full : ℕ) (s : SwapStep) (split : f + k ≡ million) where
  priced-down :
      t ≤ c
      → 0 < t
      → full ≡ input_down (l * q96) c t
      → ((if leb full (r * k / million)
            then ok (pos t)
            else next_sqrt_from_input (pos c) (pos l) (pos (r * k / million)) true)
          >>= finish_step true (pos c) (pos t) (pos l) (pos r) (pos f) (pos k) (pos full))
        ≡ ok s
      → IsStepped c t r s
  priced-down le ht ef h = elim (Bool-cases (leb full (r * k / million))) [
    | inl e ↦
        finish_step-maxed true c t l r f k full s split (leb→le full (r * k / million) e)
          (rw e at h)
    | inr e ↦
        let (v, ev, h1) =
          >>=-eq-ok (next_sqrt_from_input (pos c) (pos l) (pos (r * k / million)) true) _
            (rw e at h) in
        let (w, vw, tw, wc) = next_sqrt-down c t l (r * k / million) v ht le (ground arith) ev in
        finish_step-partial true c t l r f k full w s (λ eq. omega arith) (λ _. (omega arith, wc))
          (λ up. absurd (omega arith))
          (λ u eu. (input_down (l * q96) c w, (input_down-ok c w l u wc eu).0))
          (subst
            (λ (z : ℤ).
              finish_step true (pos c) (pos t) (pos l) (pos r) (pos f) (pos k) (pos full) z ≡ ok s)
            vw h1)
  ]

  priced-up :
      c < t
      → full ≡ ceil_div (l * (t - c)) q96
      → ((if leb full (r * k / million)
            then ok (pos t)
            else next_sqrt_from_input (pos c) (pos l) (pos (r * k / million)) false)
          >>= finish_step false (pos c) (pos t) (pos l) (pos r) (pos f) (pos k) (pos full))
        ≡ ok s
      → IsStepped c t r s
  priced-up lt ef h = elim (Bool-cases (leb full (r * k / million))) [
    | inl e ↦
        finish_step-maxed false c t l r f k full s split (leb→le full (r * k / million) e)
          (rw e at h)
    | inr e ↦
        let (v, ev, h1) =
          >>=-eq-ok (next_sqrt_from_input (pos c) (pos l) (pos (r * k / million)) false) _
            (rw e at h) in
        let (w, vw, wt, cw) =
          next_sqrt-up c t l (r * k / million) v (omega arith) (ground arith) ev in
        finish_step-partial false c t l r f k full w s (λ eq. omega arith)
          (λ down. absurd (omega arith)) (λ _. (cw, omega arith))
          (λ u eu. (ceil_div (l * (w - c)) q96, input_up-ok c w l u cw eu))
          (subst
            (λ (z : ℤ).
              finish_step false (pos c) (pos t) (pos l) (pos r) (pos f) (pos k) (pos full) z ≡ ok s)
            vw h1)
  ]

-- A step that succeeds never takes more than the remaining input, takes all of it unless it
-- reaches the target, and moves the price towards the target without passing it.
pub compute_swap_step-IsStepped :
    (c t l r f : ℕ) (s : SwapStep)
    → compute_swap_step (pos c) (pos t) (pos l) (pos r) (pos f) ≡ ok s
    → IsStepped c t r s
unfolding compute_swap_step
compute_swap_step-IsStepped c t l r f s h =
    let (f_le, _, h1) = or_fail-sub_u256-then _ million f _ h in
    let (_, h2) = fail_if-eq-ok (non_positive (pos (million - f))) _ _ h1 in
    let (_, h3) = mul_div-then _ r (million - f) million h2 in
    elim (Bool-cases (leb t c)) [
      | inl e ↦
          let (full, ef, h5) =
            >>=-eq-ok (input_between true (pos c) (pos t) (pos l)) _ (rw e at h3) in
          let (vf, ht) = input_down-ok c t l full (leb→le t c e) ef in
          priced-down c t l r f (million - f) (input_down (l * q96) c t) s (omega arith)
            (leb→le t c e) ht refl
            (subst
              (λ (z : ℤ).
                ((if leb_ℤ z (pos (r * (million - f) / million))
                    then ok (pos t)
                    else next_sqrt_from_input (pos c) (pos l) (pos (r * (million - f) / million))
                        true)
                  >>= finish_step true (pos c) (pos t) (pos l) (pos r) (pos f) (pos (million - f))
                      z)
                ≡ ok s)
              vf h5)
      | inr e ↦
          let (full, ef, h5) =
            >>=-eq-ok (input_between false (pos c) (pos t) (pos l)) _ (rw e at h3) in
          let vf = input_up-ok c t l full (ground arith) ef in
          priced-up c t l r f (million - f) (ceil_div (l * (t - c)) q96) s (omega arith)
            (ground arith) refl
            (subst
              (λ (z : ℤ).
                ((if leb_ℤ z (pos (r * (million - f) / million))
                    then ok (pos t)
                    else next_sqrt_from_input (pos c) (pos l) (pos (r * (million - f) / million))
                        false)
                  >>= finish_step false (pos c) (pos t) (pos l) (pos r) (pos f) (pos (million - f))
                      z)
                ≡ ok s)
              vf h5)
    ]
