-- ===== src/Solve/MinInput/Bisect.antt =====
-- internal/solve/solve.go, minInputFor: what the binary search finds, for any function it searches.
use mathlib.Core.Path.{subst}
use native.Mathlib.Omega.{pow_step}
use aladdin_solver_engine.Prelude.{
  Bool-cases, Option, ap, arith, false, inl, inr, leb, leb_ℤ, leb→le, none, pos, refl, some, suc,
  sym, true, zero, ℕ, ℤ, ◌+◌, ◌-ℤ◌, ◌-◌, ◌/◌, ◌<◌, ◌^◌, ◌∙◌, ◌≡◌, ◌≤◌, ◌⊎◌,
}
use aladdin_solver_engine.Solve.Context.{
  Context, Timed, background, go_on-eq-some, poll, timed-injective,
}
use aladdin_solver_engine.Solve.Route.{Route}
use aladdin_solver_engine.Solve.MinInput.{Bounds, enough, min_loop, narrow}

module _ (search : ℤ → Context → Timed (Option Route)) (want : ℤ) where
  -- The route at an input, without a deadline, buys enough.
  abbrev pub Attains : ℕ → Route → Type 0
  Attains n r = (search (pos n) background ≡ some (some r, background)) × (leb_ℤ want r.out ≡ true)

  abbrev pub FallsShort : ℕ → Type 0
  FallsShort n = (r : Route) → Attains n r → ⊥

  -- The input buys enough by its route, and one unit less does not, unless nothing would be left.
  abbrev pub Found : ℕ → ℤ → Route → Type 0
  Found max_in input r =
      (n : ℕ) × (input ≡ pos n)
      × (0 < n)
      × (n ≤ max_in)
      × Attains n r
      × ((n ≡ 1) ⊎ FallsShort (n - 1))

  -- A search that is not given up runs as it would without a deadline.
  abbrev pub Timeless : Type 0
  Timeless =
      (input : ℤ) (o : Option Route) (ctx ctx' : Context)
      → search input ctx ≡ some (o, ctx')
      → search input background ≡ some (o, background)

some_route : Route → Option Route → Route
some_route d none = d
some_route d (some r) = r

some_route-injective : (a b : Route) → ◌≡◌ {A = Option Route} (some a) (some b) → a ≡ b
unfolding some_route
some_route-injective a b e = ap (some_route a) e

pub enough-cases :
    (want : ℤ) (o : Option Route)
    → ((r : Route) × (o ≡ some r) × (leb_ℤ want r.out ≡ true) × (enough want o ≡ some r))
      ⊎ ((enough want o ≡ none) × ((r : Route) → o ≡ some r → leb_ℤ want r.out ≡ true → ⊥))
unfolding enough
enough-cases want none = inr (refl, λ r e le. cc)
enough-cases want (some a) = elim (Bool-cases (leb_ℤ want a.out)) [
  | inl t ↦ inl (a, refl, t, rw t)
  | inr f ↦ inr (
    rw f,
    λ r e le.
        let low : leb_ℤ want r.out ≡ false =
          subst (λ (x : Route). leb_ℤ want x.out ≡ false) (some_route-injective a r e) f in
        cc,
  )
]

abbrev pub bounds_at : (l h n : ℕ) → Route → Bounds
bounds_at l h n r = record { lo = pos l; hi = pos h; best_in = pos n; chosen = r }

sub_one : (m : ℕ) → 0 < m → pos m -ℤ pos 1 ≡ pos (m - 1)
sub_one m p = ground arith

narrow-down :
    (l h n m : ℕ) (r r' : Route) (want : ℤ) (o : Option Route)
    → 0 < m
    → enough want o ≡ some r'
    → narrow (bounds_at l h n r) (pos m) (enough want o) ≡ bounds_at l (m - 1) m r'
unfolding narrow
narrow-down l h n m r r' want o p e = rw (e, sub_one m p)

narrow-up :
    (l h n m : ℕ) (r : Route) (want : ℤ) (o : Option Route)
    → enough want o ≡ none
    → narrow (bounds_at l h n r) (pos m) (enough want o) ≡ bounds_at (m + 1) h n r
unfolding narrow
narrow-up l h n m r want o e = rw e

gap_down :
    (l h left : ℕ) → 0 < l → l ≤ h → h + 1 - l < 2 ^ suc left → (l + h) / 2 - 1 + 1 - l < 2 ^ left
gap_down l h left p le gap = ground (arith, pow_step 2 left)

gap_up : (l h left : ℕ) → l ≤ h → h + 1 - l < 2 ^ suc left → h + 1 - ((l + h) / 2 + 1) < 2 ^ left
gap_up l h left le gap = ground (arith, pow_step 2 left)

add_sub_one : (m : ℕ) → m + 1 - 1 ≡ m
add_sub_one m = omega arith

halved : (l h : ℕ) → l ≤ h → (l ≤ (l + h) / 2) × ((l + h) / 2 ≤ h)
halved l h le = ground arith

module _ (search : ℤ → Context → Timed (Option Route)) (want : ℤ) (max_in : ℕ)
    (same : Timeless search want) where
  stopped :
      (l h n : ℕ) (r : Route)
      → h + 1 ≤ l
      → l ≤ h + 1
      → 0 < n
      → n ≤ max_in
      → (n ≡ h + 1) ⊎ (n ≡ h)
      → Attains search want n r
      → (l ≡ 1) ⊎ FallsShort search want (l - 1)
      → Found search want max_in (pos n) r
  stopped l h n r ge le p small (inl e) a below =
      let el : l ≡ n = omega arith in
      (n, refl, p, small, a, subst (λ k. (k ≡ 1) ⊎ FallsShort search want (k - 1)) el below)
  stopped l h n r ge le p small (inr e) a (inl one) = absurd (omega arith)
  stopped l h n r ge le p small (inr e) a (inr short) =
      let el : n ≡ l - 1 = omega arith in
      absurd (short r (subst (λ k. Attains search want k r) el a))

  pub loop-Found :
      (left l h n : ℕ) (r : Route) (b : Bounds) (ctx ctx' : Context)
      → 0 < l
      → l ≤ h + 1
      → 0 < n
      → n ≤ max_in
      → (n ≡ h + 1) ⊎ (n ≡ h)
      → Attains search want n r
      → (l ≡ 1) ⊎ FallsShort search want (l - 1)
      → h + 1 - l < 2 ^ left
      → min_loop search want left (bounds_at l h n r) ctx ≡ some (b, ctx')
      → Found search want max_in b.best_in b.chosen
  unfolding min_loop
  loop-Found zero l h n r b ctx ctx' pl le p small close a below gap run =
      subst (λ (x : Bounds). Found search want max_in x.best_in x.chosen)
        (timed-injective _ _ _ _ run) (stopped l h n r (ground arith) le p small close a below)
  loop-Found (suc left) l h n r b ctx ctx' pl le p small close a below gap run =
      elim (Bool-cases (leb l h)) [
        | inr over ↦
            subst (λ (x : Bounds). Found search want max_in x.best_in x.chosen)
              (timed-injective _ _ _ _ (rw (min_loop, over) at run))
              (stopped l h n r (ground arith) le p small close a below)
        | inl go ↦
            let (_, c1, _, run1) = go_on-eq-some (poll ctx) _ (rw (min_loop, go) at run) in
            let (route, c2, e, run2) = go_on-eq-some (search (pos ((l + h) / 2)) c1) _ run1 in
            let (low, high) = halved l h (leb→le l h go) in
            let e' = same (pos ((l + h) / 2)) route c1 c2 e in
            elim (enough-cases want route) [
              | inl (r', er, wanted, en) ↦
                  loop-Found left l ((l + h) / 2 - 1) ((l + h) / 2) r' b c2 ctx' pl (omega arith)
                    (omega arith) (omega arith) (inl (omega arith)) (rw er at e', wanted) below
                    (gap_down l h left pl (leb→le l h go) gap)
                    (subst (λ x. min_loop search want left x c2 ≡ some (b, ctx'))
                      (narrow-down l h n ((l + h) / 2) r r' want route (omega arith) en) run2)
              | inr (en, short) ↦
                  loop-Found left ((l + h) / 2 + 1) h n r b c2 ctx' (omega arith) (omega arith) p
                    small close a
                    (inr (
                      rw (add_sub_one ((l + h) / 2))
                        (λ r'' at. short r'' (timed-injective _ _ _ _ (sym e' ∙ at.0)) at.1)))
                    (gap_up l h left (leb→le l h go) gap)
                    (subst (λ x. min_loop search want left x c2 ≡ some (b, ctx'))
                      (narrow-up l h n ((l + h) / 2) r want route en) run2)
            ]
      ]
