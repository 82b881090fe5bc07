-- ===== src/Solve/Engine/Sound.antt =====
-- internal/solve/solve.go, Solve: the invariant of the two passes.
use aladdin_solver_engine.Prelude.{
  All, All-append, Bool-cases, List, Option-cases, Text, [], arith, inl, inr, length, length-append,
  not, refl, suc, take, zero, ℕ, ◌%◌, ◌&&◌, ◌++◌, ◌+◌, ◌^◌, ◌∷◌, ◌≡◌,
}
use aladdin_solver_engine.Solve.Context.{Context, poll}
use aladdin_solver_engine.Solve.Gas.{sum_gas}
use aladdin_solver_engine.Solve.Route.{Graph}
use aladdin_solver_engine.Solve.Order.{Order, Solution}
use aladdin_solver_engine.Solve.Order.Supported.{IsSupported}
use aladdin_solver_engine.Solve.Profit.{profitable}
use aladdin_solver_engine.Solve.RouteOrder.{
  Outcome, reason_limit, reason_no_route, reason_ok, route_order,
}
use aladdin_solver_engine.Solve.Cow.{
  Match, cow_profitable, find_cow_matches, find_matches, is_used, match_solution,
}
use aladdin_solver_engine.Solve.Cow.Source.{Both, find_cow_matches-Both}
use aladdin_solver_engine.Solve.Engine.{
  Run, Stats, Terms, count_match, count_route, match_loop, next_id, route_loop, run_passes,
  take_match, take_outcome,
}
use aladdin_solver_engine.Solve.Engine.Wire.{
  Holds, match_solution-wire, match_solution_id, route_order-wire,
}
use aladdin_solver_engine.Api.Encode.Valid.{IsWireSolution}

-- The ids count up from the number, in 64 bits.
abbrev pub Numbered : ℕ → List Solution → Type 0
Numbered n [] = Unit
Numbered n (s ∷ ss) = (s.id ≡ n % 2 ^ 64) × Numbered (n + 1) ss

-- The solutions so far are numbered, fit the contract and are counted by the pass that made them.
abbrev pub IsSound : Run → Type 0
IsSound run =
    Numbered 0 run.solutions
    × (run.id ≡ length run.solutions % 2 ^ 64)
    × All IsWireSolution run.solutions
    × (run.stats.cow_matches + run.stats.baseline_routes ≡ length run.solutions)

Numbered-append :
    (n : ℕ) (xs : List Solution) (s : Solution)
    → Numbered n xs
    → s.id ≡ (n + length xs) % 2 ^ 64
    → Numbered n (xs ++ (s ∷ []))
Numbered-append n [] s h e = (omega (arith, e), tt)
Numbered-append n (x ∷ xs) s (h, hs) e = (h, Numbered-append (n + 1) xs s hs (omega (arith, e)))

pub Numbered-take : (k n : ℕ) (xs : List Solution) → Numbered n xs → Numbered n (take k xs)
Numbered-take zero n xs h = tt
Numbered-take (suc k) n [] h = tt
Numbered-take (suc k) n (x ∷ xs) (h, hs) = (h, Numbered-take k (n + 1) xs hs)

-- A solution with the next id is added, and its pass counts it.
add_solution :
    (run : Run) (s : Solution) (matched : List Text) (stats : Stats)
    → IsSound run
    → s.id ≡ run.id
    → IsWireSolution s
    → stats.cow_matches + stats.baseline_routes
      ≡ run.stats.cow_matches + run.stats.baseline_routes + 1
    → IsSound (record {
      solutions = run.solutions ++ (s ∷ []);
      id = next_id run.id;
      matched = matched;
      stats = stats;
    })
add_solution run s matched stats (numbered, id, wire, counts) same w e =
    let more = length-append run.solutions (s ∷ []) in
    (
      Numbered-append 0 run.solutions s numbered (omega (arith, same, id)),
      omega (arith, more, id),
      All-append IsWireSolution run.solutions (s ∷ []) wire (w, tt),
      omega (arith, more, counts, e),
    )

take_match-IsSound :
    (terms : Terms) (m : Match) (run : Run)
    → IsSupported m.a
    → IsSound run
    → IsSound (take_match terms m run)
unfolding take_match
take_match-IsSound terms m run supported h =
    elim (Option-cases (
      sum_gas (
        terms.cfg.settlement_overhead_gas ∷ terms.cfg.per_trade_gas ∷ terms.cfg.per_trade_gas
        ∷ []))) [
          | inl e ↦ rw (take_match, e) h
          | inr (gas, e) ↦
              elim (Bool-cases (
                terms.cfg.require_profitable
                && not (cow_profitable m gas terms.gas_price terms.tokens))) [
                  | inl p ↦ rw (take_match, e, p) h
                  | inr p ↦
                      rw (take_match, e, p)
                        (add_solution run (match_solution m run.id gas)
                          (m.a.uid ∷ m.b.uid ∷ run.matched) (count_match run.stats) h
                          (match_solution_id m run.id gas)
                          (match_solution-wire m run.id gas supported) (omega arith))
                ]
        ]

match_loop-IsSound :
    (terms : Terms) (ms : List Match) (run : Run) (ctx : Context)
    → All (Both IsSupported) ms
    → IsSound run
    → IsSound (match_loop terms ms run ctx).0
unfolding match_loop
match_loop-IsSound terms [] run ctx all h = h
match_loop-IsSound terms (m ∷ ms) run ctx (both, all) h = elim (Option-cases (poll ctx)) [
  | inl e ↦ rw (match_loop, e) h
  | inr ((_, c1), e) ↦
      rw (match_loop, e)
        (match_loop-IsSound terms ms (take_match terms m run) c1 all
          (take_match-IsSound terms m run both.0 h))
]

take_outcome-IsSound :
    (terms : Terms) (out : Outcome) (run : Run)
    → Holds IsWireSolution out
    → IsSound run
    → IsSound (take_outcome terms out run)
unfolding take_outcome
take_outcome-IsSound terms reason_no_route run w h = h
take_outcome-IsSound terms reason_limit run w h = h
take_outcome-IsSound terms (reason_ok r) run w h =
    elim (Bool-cases (
      terms.cfg.require_profitable
      && not (profitable r.surplus r.surplus_token r.gas terms.gas_price terms.tokens))) [
        | inl p ↦ rw (take_outcome, p) h
        | inr p ↦
            rw (take_outcome, p)
              (add_solution run (record r.solution { id = run.id }) run.matched
                (count_route run.stats) h refl w (omega arith))
      ]

route_loop-IsSound :
    (terms : Terms) (g : Graph) (orders : List Order) (run : Run) (ctx : Context)
    → All IsSupported orders
    → IsSound run
    → IsSound (route_loop terms g orders run ctx)
unfolding route_loop
route_loop-IsSound terms g [] run ctx all h = h
route_loop-IsSound terms g (o ∷ rest) run ctx (supported, all) h = elim (Option-cases (poll ctx)) [
  | inl e ↦ rw (route_loop, e) h
  | inr ((_, c1), e) ↦ elim (Bool-cases (is_used o.uid run.matched)) [
    | inl u ↦ rw (route_loop, e, u) (route_loop-IsSound terms g rest run c1 all h)
    | inr u ↦ elim (Option-cases (route_order o g terms.cfg c1)) [
      | inl r ↦ rw (route_loop, e, u, r) h
      | inr ((out, c2), r) ↦
          let w = route_order-wire o g terms.cfg out c1 c2 supported r in
          rw (route_loop, e, u, r)
            (route_loop-IsSound terms g rest (take_outcome terms out run) c2 all
              (take_outcome-IsSound terms out run w h))
    ]
  ]
]

-- The two passes keep the invariant, over supported orders.
pub run_passes-IsSound :
    (terms : Terms) (g : Graph) (orders : List Order) (run : Run) (ctx : Context)
    → All IsSupported orders
    → IsSound run
    → IsSound (run_passes terms g orders run ctx)
unfolding run_passes
run_passes-IsSound terms g orders run ctx all h =
    let both = find_cow_matches-Both IsSupported orders ctx all in
    route_loop-IsSound terms g orders _ _ all (
      match_loop-IsSound terms (find_cow_matches orders ctx) run (find_matches orders ctx).1 both h)
