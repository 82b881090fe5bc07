-- ===== src/Solve/Pools/Count.antt =====
-- internal/solve/pools.go, BuildPoolsContext: every source is a pool or is counted as skipped.
use aladdin_solver_engine.Prelude.{
  Bool-cases, List, Option-cases, Result-cases, Text, [], abs, arith, codes, false, inl, inr,
  length, length-append, length-take, ltb_ℤ, map_get, map_put, negsuc, pos, refl, take, text_eq,
  true, ℕ, ℤ, ◌&&◌, ◌++◌, ◌+◌, ◌-◌, ◌∷◌, ◌≡◌, ◌≤◌,
}
use aladdin_solver_engine.Solve.Context.{Context, poll}
use aladdin_solver_engine.Solve.Liquidity.{Liquidity}
use aladdin_solver_engine.Amm.Pool.{Pool}
use aladdin_solver_engine.Solve.Pools.{
  Built, Skipped, add_skipped, build_loop, build_pool, build_pools, count_at, skip_kind,
}

-- The sum of the counts.
abbrev pub all_skipped : Skipped → ℕ
all_skipped [] = 0
all_skipped ((k, n) ∷ rest) = n + all_skipped rest

count_head :
    (k key : Text) (c : ℕ) (rest : Skipped)
    → text_eq k key ≡ true
    → count_at ((k, c) ∷ rest) key ≡ c
unfolding map_get
count_head k key c rest e = rw (count_at, map_get, e) refl

count_tail :
    (k key : Text) (c : ℕ) (rest : Skipped)
    → text_eq k key ≡ false
    → count_at ((k, c) ∷ rest) key ≡ count_at rest key
unfolding map_get
count_tail k key c rest e = rw (count_at, map_get, e) refl

all_skipped-put :
    (m : Skipped) (key : Text) (n : ℕ)
    → all_skipped (map_put m key (count_at m key + n)) ≡ all_skipped m + n
unfolding map_put map_get
all_skipped-put [] key n = omega arith
all_skipped-put ((k, c) ∷ rest) key n = elim (Bool-cases (text_eq k key)) [
  | inl e ↦ rw (map_put, e, count_head k key c rest e) (omega arith)
  | inr e ↦
      let later = all_skipped-put rest key n in
      rw (map_put, e, count_tail k key c rest e) (omega (arith, later))
]

all_skipped-add :
    (m : Skipped) (key : Text) (n : ℕ) → all_skipped (add_skipped m key n) ≡ all_skipped m + n
unfolding add_skipped
all_skipped-add m key n = all_skipped-put m key n

-- The pools built and the sources skipped.
abbrev pub accounted : Built → ℕ
accounted built = length built.pools + all_skipped built.skips

build_loop-accounted :
    (ls : List Liquidity) (pools : List Pool) (skips : Skipped) (ctx : Context)
    → accounted (build_loop ls pools skips ctx) ≡ length pools + all_skipped skips + length ls
unfolding build_loop
build_loop-accounted [] pools skips ctx = omega arith
build_loop-accounted (l ∷ rest) pools skips ctx = elim (Option-cases (poll ctx)) [
  | inl e ↦
      let added = all_skipped-add skips (codes "cancelled") (length (l ∷ rest)) in
      rw (build_loop, e) (omega (arith, added))
  | inr ((_, c1), e) ↦ elim (Result-cases (build_pool l)) [
    | inr (pool, b) ↦
        let more = length-append pools (pool ∷ []) in
        let h = build_loop-accounted rest (pools ++ (pool ∷ [])) skips c1 in
        rw (build_loop, e, b) (omega (arith, more, h))
    | inl (problem, b) ↦
        let added = all_skipped-add skips (skip_kind l) 1 in
        let h = build_loop-accounted rest pools (add_skipped skips (skip_kind l) 1) c1 in
        rw (build_loop, e, b) (omega (arith, added, h))
  ]
]

below : (max : ℤ) (n : ℕ) → (ltb_ℤ (pos 0) max && ltb_ℤ max (pos n)) ≡ true → abs max ≤ n
below (pos m) n h = ground arith
below (negsuc m) n h = absurd (ground arith)

-- Every liquidity source is a pool or is counted as skipped, once: the pools built and the counts of
-- those skipped (by kind, over the limit, or left when the deadline passed) add up to the sources
-- given, whatever the limit and the deadline.
pub build_pools-accounted :
    (ls : List Liquidity) (max_pools : ℤ) (ctx : Context)
    → accounted (build_pools ls max_pools ctx) ≡ length ls
unfolding build_pools
build_pools-accounted ls max_pools ctx =
    elim (Bool-cases (ltb_ℤ (pos 0) max_pools && ltb_ℤ max_pools (pos (length ls)))) [
      | inr e ↦ let h = build_loop-accounted ls [] [] ctx in rw (build_pools, e) (omega (arith, h))
      | inl e ↦
          let over = all_skipped-add [] (codes "resourceLimit") (length ls - abs max_pools) in
          let cut = length-take (abs max_pools) ls in
          let h =
            build_loop-accounted (take (abs max_pools) ls) []
              (add_skipped [] (codes "resourceLimit") (length ls - abs max_pools)) ctx in
          let fits : abs max_pools ≤ length ls = below max_pools (length ls) e in
          rw (build_pools, e) (omega (arith, over, cut, h, fits))
    ]
