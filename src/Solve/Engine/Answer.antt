-- ===== src/Solve/Engine/Answer.antt =====
-- internal/solve/solve.go, Solve: the solutions returned, and the counts beside them.
use aladdin_solver_engine.Prelude.{
  All, All-take, Bool-cases, List, Option, Option-cases, Result, [], abs, arith, err,
  expected_array, false, if◌then◌else◌, inl, inr, leb_ℤ, length, length-take, ltb_ℤ, map, negsuc,
  non_positive, none, ok, pos, refl, some, suc, sym, take, true, zero, ℕ, ℤ, ◌+◌, ◌^◌, ◌∷◌, ◌≡◌,
  ◌≤◌, ◌⊎◌,
}
use aladdin_solver_engine.Solve.Context.{Context, poll}
use aladdin_solver_engine.Solve.Route.{new_graph}
use aladdin_solver_engine.Solve.Order.{Solution, eligible}
use aladdin_solver_engine.Solve.Order.Supported.{eligible-IsBounded}
use aladdin_solver_engine.Solve.RouteOrder.{Config}
use aladdin_solver_engine.Solve.Pools.{Built, build_pools}
use aladdin_solver_engine.Solve.Engine.{
  Auction, Run, SolveResult, Terms, appended_slice, cap, finish, gas_price_of, no_solutions, or_nil,
  run_passes, solve, solve_orders, start_run, with_defaults,
}
use aladdin_solver_engine.Solve.Engine.Sound.{IsSound, Numbered, Numbered-take, run_passes-IsSound}
use aladdin_solver_engine.Contract.Response.{validate_solve_response_json}
use aladdin_solver_engine.Api.Encode.{encode_response}
use aladdin_solver_engine.Api.Encode.Valid.{
  IsWireSolution, encode_response-nil, encode_response-valid,
}

-- What holds without solutions, and of what a run that keeps the invariant leaves, holds of the
-- result.
pub solve-keeps :
    (P : SolveResult → Type 0) (ctx : Context) (auction : Auction) (cfg : Config)
    → ((built : Built) → P (no_solutions built))
    → ((r : Run) → IsSound r → P (finish (with_defaults cfg) r))
    → P (solve ctx auction cfg)
unfolding solve solve_orders
solve-keeps P ctx auction cfg nothing answer =
    let cfg1 = with_defaults cfg in
    let built = build_pools (or_nil auction.liquidity) cfg1.max_pools ctx in
    let taken = eligible (or_nil auction.orders) cfg1.max_orders in
    let start = start_run built taken.0 taken.1 in
    let terms : Terms = record {
      cfg = cfg1;
      gas_price = gas_price_of auction.effective_gas_price;
      tokens = or_nil auction.tokens;
    } in
    let chosen = eligible-IsBounded (or_nil auction.orders) cfg1.max_orders in
    elim (Option-cases (poll built.left)) [
      | inl e ↦ rw (solve, e) (nothing built)
      | inr ((_, c1), e) ↦ elim (Option-cases (poll c1)) [
        | inl e1 ↦ rw (solve, e, e1) (nothing built)
        | inr ((_, c2), e1) ↦
            rw (solve, e, e1)
              (answer (run_passes terms (new_graph built.pools) taken.0 start c2) (
                run_passes-IsSound terms (new_graph built.pools) taken.0 start c2 chosen.0
                  (tt, refl, tt, refl)))
      ]
    ]

or_nil-appended : (xs : List Solution) → or_nil (appended_slice xs) ≡ xs
or_nil-appended [] = refl
or_nil-appended (x ∷ xs) = refl

cap-keeps :
    (P : List Solution → Type 0) (max : ℤ) (xs : List Solution)
    → P []
    → ((n : ℕ) → P (take n xs))
    → P xs
    → P (or_nil (cap max xs))
unfolding cap
cap-keeps P max xs p q r = elim (Bool-cases (non_positive max)) [
  | inl e ↦ rw (cap, e) p
  | inr e ↦ elim (Bool-cases (ltb_ℤ max (pos (length xs)))) [
    | inl f ↦ rw (cap, e, f) (q (abs max))
    | inr f ↦ rw (cap, e, f, or_nil-appended xs) r
  ]
]

IsWire : SolveResult → Type 0
IsWire result = All IsWireSolution (or_nil result.solutions)

solve-IsWire : (ctx : Context) (auction : Auction) (cfg : Config) → IsWire (solve ctx auction cfg)
unfolding IsWire
solve-IsWire ctx auction cfg =
    solve-keeps IsWire ctx auction cfg (λ built. tt)
      (λ r sound.
        cap-keeps (All IsWireSolution) _ r.solutions tt
          (λ n. All-take IsWireSolution n r.solutions sound.2) sound.2)

-- What the wire contract says of the response that carries a slice of solutions.
abbrev verdict : Option (List Solution) → Result (Unit {0})
verdict solutions = validate_solve_response_json (some (encode_response solutions))

-- A slice that is nil is refused, one that is not passes.
abbrev pub IsServable : Option (List Solution) → Type 0
IsServable solutions =
    ((solutions ≡ none) × (verdict solutions ≡ err expected_array))
    ⊎ ((listed : List Solution) × (solutions ≡ some listed) × (verdict (some listed) ≡ ok tt))

wire-IsServable :
    (solutions : Option (List Solution))
    → All IsWireSolution (or_nil solutions)
    → IsServable solutions
wire-IsServable none wire = inl (refl, encode_response-nil)
wire-IsServable (some listed) wire = inr (listed, refl, encode_response-valid listed wire)

-- Whatever the auction, the configuration and the deadline, the solutions returned are the nil slice,
-- whose response the wire contract refuses since it is no array, or a slice that is not nil, whose
-- response passes the check of the contract.
pub solve-valid :
    (ctx : Context) (auction : Auction) (cfg : Config)
    → IsServable (solve ctx auction cfg).solutions
unfolding IsWire
solve-valid ctx auction cfg =
    wire-IsServable (solve ctx auction cfg).solutions (solve-IsWire ctx auction cfg)

-- The counts fit the solutions, and the solutions the limit.
abbrev pub IsCounted : ℤ → SolveResult → Type 0
IsCounted max result =
    (result.stats.candidate_solutions ≡ result.stats.cow_matches + result.stats.baseline_routes)
    × (result.stats.solutions ≡ length (or_nil result.solutions))
    × (length (or_nil result.solutions) ≤ result.stats.candidate_solutions)
    × (leb_ℤ (pos (length (or_nil result.solutions))) (if non_positive max then pos 0 else max)
        ≡ true)

positive : (m : ℕ) → non_positive (pos (suc m)) ≡ false
positive m = ground arith

cap-take :
    (m : ℕ) (xs : List Solution)
    → ltb_ℤ (pos (suc m)) (pos (length xs)) ≡ true
    → or_nil (cap (pos (suc m)) xs) ≡ take (suc m) xs
unfolding cap
cap-take m xs f = rw (cap, positive m, f) refl

cap-whole :
    (m : ℕ) (xs : List Solution)
    → ltb_ℤ (pos (suc m)) (pos (length xs)) ≡ false
    → or_nil (cap (pos (suc m)) xs) ≡ xs
unfolding cap
cap-whole m xs f = rw (cap, positive m, f) (or_nil-appended xs)

capped-length :
    (max : ℤ) (xs : List Solution)
    → (length (or_nil (cap max xs)) ≤ length xs)
      × (leb_ℤ (pos (length (or_nil (cap max xs)))) (if non_positive max then pos 0 else max)
          ≡ true)
unfolding cap
capped-length (negsuc m) xs = (omega arith, refl)
capped-length (pos zero) xs = (omega arith, refl)
capped-length (pos (suc m)) xs =
    let cut = length-take (suc m) xs in
    elim (Bool-cases (ltb_ℤ (pos (suc m)) (pos (length xs)))) [
      | inl f ↦ rw (cap-take m xs f) (omega (arith, cut), rw (positive m) (ground (arith, cut)))
      | inr f ↦ rw (cap-whole m xs f) (omega arith, rw (positive m) (ground arith))
    ]

none_within : (max : ℤ) → leb_ℤ (pos 0) (if non_positive max then pos 0 else max) ≡ true
none_within (pos zero) = refl
none_within (pos (suc m)) = rw (positive m) (ground arith)
none_within (negsuc m) = refl

-- The number of candidate solutions is the number of matches and routes counted; the number of
-- solutions returned is the one counted, at most the number of candidates, and at most the limit,
-- which is none at all if it is not positive.
pub solve-IsCounted :
    (ctx : Context) (auction : Auction) (cfg : Config)
    → IsCounted cfg.max_solutions (solve ctx auction cfg)
unfolding with_defaults
solve-IsCounted ctx auction cfg =
    solve-keeps (IsCounted cfg.max_solutions) ctx auction cfg
      (λ built. (refl, refl, omega arith, none_within cfg.max_solutions))
      (λ r sound.
        let limits = capped-length cfg.max_solutions r.solutions in
        (sym sound.3, refl, limits.0, limits.1))

-- The numbers from the first one on.
abbrev pub counting : ℕ → ℕ → List ℕ
counting n zero = []
counting n (suc k) = n ∷ counting (n + 1) k

ids-counting :
    (n : ℕ) (xs : List Solution)
    → n + length xs ≤ 2 ^ 64
    → Numbered n xs
    → map (λ s. Solution.id s) xs ≡ counting n (length xs)
ids-counting n [] le h = refl
ids-counting n (x ∷ xs) le (h, hs) =
    let e : x.id ≡ n = omega (arith, h) in rw (e, ids-counting (n + 1) xs (omega arith) hs) refl

within :
    (max : ℤ) (n : ℕ)
    → leb_ℤ max (pos (2 ^ 64)) ≡ true
    → leb_ℤ (pos n) (if non_positive max then pos 0 else max) ≡ true
    → 0 + n ≤ 2 ^ 64
within (pos zero) n h k = ground arith
within (pos (suc m)) n h k = ground arith
within (negsuc m) n h k = ground arith

IsNumbered : SolveResult → Type 0
IsNumbered result = Numbered 0 (or_nil result.solutions)

solve-Numbered :
    (ctx : Context) (auction : Auction) (cfg : Config) → IsNumbered (solve ctx auction cfg)
unfolding IsNumbered
solve-Numbered ctx auction cfg =
    solve-keeps IsNumbered ctx auction cfg (λ built. tt)
      (λ r sound.
        cap-keeps (Numbered 0) _ r.solutions tt (λ n. Numbered-take n 0 r.solutions sound.0)
          sound.0)

-- The solutions returned have the ids 0, 1, 2 and so on, in this order, if the configured limit is
-- below 2^64.
pub solve-ids :
    (ctx : Context) (auction : Auction) (cfg : Config)
    → leb_ℤ cfg.max_solutions (pos (2 ^ 64)) ≡ true
    → map (λ s. Solution.id s) (or_nil (solve ctx auction cfg).solutions)
      ≡ counting 0 (length (or_nil (solve ctx auction cfg).solutions))
unfolding IsNumbered
solve-ids ctx auction cfg limit =
    let counted = solve-IsCounted ctx auction cfg in
    ids-counting 0 (or_nil (solve ctx auction cfg).solutions)
      (within cfg.max_solutions _ limit counted.3) (solve-Numbered ctx auction cfg)
