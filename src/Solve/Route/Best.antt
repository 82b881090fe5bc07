-- ===== src/Solve/Route/Best.antt =====
-- internal/solve/route.go: no route that the search looks at is better than the one it returns.
use mathlib.Core.Path.{subst}
use aladdin_solver_engine.Prelude.{
  Option, arith, eqb_ℤ, false, leb_ℤ, ltb_ℤ, negsuc, none, pos, some, true, ℤ, ◌≡◌,
}
use aladdin_solver_engine.Solve.Context.{Context, Timed, fold_timed, fold_timed-keeps}
use aladdin_solver_engine.Solve.Route.{Route, better, better_of}

-- There is a best route so far, and its output is at least the given one.
abbrev pub AtLeast : ℤ → Option Route → Type 0
AtLeast out none = ⊥
AtLeast out (some r) = leb_ℤ out r.out ≡ true

leb_ℤ_refl : (a : ℤ) → leb_ℤ a a ≡ true
leb_ℤ_refl (pos a) = ground arith
leb_ℤ_refl (negsuc a) = ground arith

leb_ℤ_trans : (a b c : ℤ) → leb_ℤ a b ≡ true → leb_ℤ b c ≡ true → leb_ℤ a c ≡ true
leb_ℤ_trans (pos a) (pos b) (pos c) h k = ground arith
leb_ℤ_trans (pos a) (pos b) (negsuc c) h k = ground arith
leb_ℤ_trans (pos a) (negsuc b) c h k = absurd (ground arith)
leb_ℤ_trans (negsuc a) (pos b) (pos c) h k = ground arith
leb_ℤ_trans (negsuc a) (pos b) (negsuc c) h k = absurd (ground arith)
leb_ℤ_trans (negsuc a) (negsuc b) (pos c) h k = ground arith
leb_ℤ_trans (negsuc a) (negsuc b) (negsuc c) h k = ground arith

lt_or_ge : (a b : ℤ) → eqb_ℤ b a ≡ false → ltb_ℤ a b ≡ false → leb_ℤ b a ≡ true
lt_or_ge (pos a) (pos b) h k = ground arith
lt_or_ge (pos a) (negsuc b) h k = ground arith
lt_or_ge (negsuc a) (pos b) h k = ground arith
lt_or_ge (negsuc a) (negsuc b) h k = ground arith

lt_le : (a b : ℤ) → ltb_ℤ a b ≡ true → leb_ℤ a b ≡ true
lt_le (pos a) (pos b) h = ground arith
lt_le (pos a) (negsuc b) h = ground arith
lt_le (negsuc a) (pos b) h = ground arith
lt_le (negsuc a) (negsuc b) h = ground arith

eq_le : (a b : ℤ) → eqb_ℤ b a ≡ true → (leb_ℤ a b ≡ true) × (leb_ℤ b a ≡ true)
eq_le (pos a) (pos b) h = ground arith
eq_le (pos a) (negsuc b) h = ground arith
eq_le (negsuc a) (pos b) h = ground arith
eq_le (negsuc a) (negsuc b) h = ground arith

-- The better of two routes has at least the output of each.
pub better_of-max :
    (a b : Route)
    → (leb_ℤ a.out (better_of a b).out ≡ true) × (leb_ℤ b.out (better_of a b).out ≡ true)
unfolding better_of
better_of-max a b = ground (
  arith,
  leb_ℤ_refl a.out,
  leb_ℤ_refl b.out,
  lt_or_ge a.out b.out,
  lt_le a.out b.out,
  eq_le a.out b.out,
)

better-keeps :
    (out : ℤ) (best : Option Route) (r : Route)
    → AtLeast out best
    → AtLeast out (better best (some r))
unfolding better
better-keeps out none r h = elim h [ ]
better-keeps out (some b) r h = leb_ℤ_trans out b.out (better_of b r).out h (better_of-max b r).0

pub better-covers : (best : Option Route) (r : Route) → AtLeast r.out (better best (some r))
unfolding better
better-covers none r = leb_ℤ_refl r.out
better-covers (some b) r = (better_of-max b r).1

-- The best route so far, if there is one, is a candidate.
abbrev pub Every : (Route → Type 0) → Option Route → Type 0
Every C none = Unit
Every C (some r) = C r

-- From one best route to a later one: no output is lost, and only candidates come in.
abbrev pub Grown : (Route → Type 0) → Option Route → Option Route → Type 0
Grown C a b = ((o : ℤ) → AtLeast o a → AtLeast o b) × (Every C a → Every C b)

pub Grown-same : (C : Route → Type 0) (a b : Option Route) → a ≡ b → Grown C a b
Grown-same C a b e = subst (Grown C a) e (λ o h. h, λ h. h)

better_of-one : (C : Route → Type 0) (a b : Route) → C a → C b → C (better_of a b)
unfolding better_of
better_of-one C a b ca cb = ground arith

pub Grown-better :
    (C : Route → Type 0) (a : Option Route) (r : Route) → C r → Grown C a (better a (some r))
unfolding better
Grown-better C none r c = (λ o h. elim h [ ], λ _. c)
Grown-better C (some b) r c = (λ o h. better-keeps o (some b) r h, λ cb. better_of-one C b r cb c)

-- A step of a loop under which the best route so far grows.
abbrev pub Grows :
    {A : Type 0} → (Route → Type 0) → (A → Option Route → Context → Timed (Option Route)) → Type 0
Grows {A} C body =
    (x : A) (best best' : Option Route) (ctx ctx' : Context)
    → body x best ctx ≡ some (best', ctx')
    → Grown C best best'

pub fold_timed-Grows :
    {A : Type 0} (C : Route → Type 0) (body : A → Option Route → Context → Timed (Option Route))
    → Grows C body
    → Grows C (fold_timed body)
fold_timed-Grows C body grow xs best best' ctx ctx' h =
    fold_timed-keeps body (Grown C best)
      (λ x s s' c c' p e. let q = grow x s s' c c' e in (λ o a. q.0 o (p.0 o a), λ a. q.1 (p.1 a)))
      xs best best' ctx ctx' (λ o a. a, λ a. a) h
