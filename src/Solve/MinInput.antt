-- ===== src/Solve/MinInput.antt =====
-- internal/solve/solve.go, minInputFor: a binary search for the smallest input of a buy order.
pub mod Bisect
pub mod Smallest
use aladdin_solver_engine.Prelude.{
  Option, Text, false, if◌then◌else◌, leb_ℤ, negsuc, none, pos, some, suc, true, zero, ℕ, ℤ, ◌+ℤ◌,
  ◌-ℤ◌, ◌/◌,
}
use aladdin_solver_engine.Solve.Context.{Context, Timed, go_on, poll}
use aladdin_solver_engine.Solve.Route.{Graph, Route, best_route}

abbrev pub max_rounds : ℕ
max_rounds = 256

-- The bounds of the search and the best input so far, with its route.
pub record Bounds : Type 0 where
  pub lo : ℤ
  pub hi : ℤ
  pub best_in : ℤ
  pub chosen : Route

-- `route != nil && route.Out.Cmp(want) >= 0`, with the route.
unfoldable pub enough : ℤ → Option Route → Option Route
enough want none = none
enough want (some route) = if leb_ℤ want route.out then some route else none

-- The two assignments at the end of a round.
unfoldable pub narrow : Bounds → ℤ → Option Route → Bounds
narrow b mid none = record b { lo = mid +ℤ pos 1 }
narrow b mid (some route) = record b { hi = mid -ℤ pos 1; best_in = mid; chosen = route }

-- `mid.Rsh(mid, 1)` after the sum: the floor of the half.
abbrev pub half : ℤ → ℤ
half (pos n) = pos (n / 2)
half (negsuc n) = negsuc (n / 2)

-- The loop, from the rounds that are left. The search is a function of the input and the context.
unfoldable pub min_loop :
    (ℤ → Context → Timed (Option Route)) → ℤ → ℕ → Bounds → Context → Timed Bounds
min_loop search want zero b ctx = some (b, ctx)
min_loop search want (suc left) b ctx = elim (leb_ℤ b.lo b.hi) [
  | false ↦ some (b, ctx)
  | true ↦ go_on (poll ctx) λ _ ctx1.
      let mid = half (b.lo +ℤ b.hi) in
      go_on (search mid ctx1)
        λ route ctx2. min_loop search want left (narrow b mid (enough want route)) ctx2
]

-- The answer: the input and its route, or none if the whole amount does not buy enough.
unfoldable pub min_input_for : Graph → Text → Text → ℤ → ℤ → Context → Timed (Option (ℤ × Route))
min_input_for g sell buy want max_in ctx = go_on (best_route g sell buy max_in ctx) λ full ctx1.
    elim (enough want full) [
      | none ↦ some (none, ctx1)
      | some route ↦
          go_on
            (min_loop (best_route g sell buy) want max_rounds
              (record { lo = pos 1; hi = max_in; best_in = max_in; chosen = route }) ctx1)
            λ b ctx2. some (some (b.best_in, b.chosen), ctx2)
    ]
