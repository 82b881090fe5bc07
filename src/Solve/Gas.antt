-- ===== src/Solve/Gas.antt =====
-- internal/solve/route.go, sumGas: a sum of 64-bit numbers that reports an overflow.
use aladdin_solver_engine.Prelude.{
  Bool-cases, List, Option, [], arith, false, inl, inr, ltb, none, some, true, ℕ, ◌%◌, ◌+◌, ◌-◌,
  ◌<◌, ◌^◌, ◌∷◌, ◌≡◌, ◌≤◌, ◌⊎◌,
}

abbrev pub max_u64 : ℕ
max_u64 = 2 ^ 64 - 1

-- The loop, from the total so far; `^uint64(0) - total` does not wrap, the total being 64 bits wide.
gas_loop : ℕ → List ℕ → Option ℕ
gas_loop total [] = some total
gas_loop total (value ∷ rest) = elim (ltb (max_u64 - total) value) [
  | true ↦ none
  | false ↦ gas_loop ((total + value) % 2 ^ 64) rest
]

unfoldable pub sum_gas : List ℕ → Option ℕ
unfolding gas_loop
sum_gas = gas_loop 0

abbrev pub total : List ℕ → ℕ
total [] = 0
total (x ∷ xs) = x + total xs

gas_loop-total :
    (t : ℕ) (xs : List ℕ)
    → t ≤ max_u64
    → ((t + total xs ≤ max_u64) × (gas_loop t xs ≡ some (t + total xs)))
      ⊎ ((max_u64 < t + total xs) × (gas_loop t xs ≡ none))
unfolding gas_loop
gas_loop-total t [] h = inl (omega arith, ground arith)
gas_loop-total t (x ∷ xs) h = elim (Bool-cases (ltb (max_u64 - t) x)) [
  | inl over ↦ inr (ground arith, ground arith)
  | inr fits ↦
      let same : (t + x) % 2 ^ 64 ≡ t + x = ground arith in
      let small : t + x ≤ max_u64 = ground arith in
      elim (gas_loop-total (t + x) xs small) [
        | inl (le, e) ↦ inl (omega arith, ground arith)
        | inr (lt, e) ↦ inr (omega arith, ground arith)
      ]
]

-- The sum of gas amounts is the exact sum if that fits 64 bits; if it does not, it is refused.
pub sum_gas-total :
    (xs : List ℕ)
    → ((total xs ≤ max_u64) × (sum_gas xs ≡ some (total xs)))
      ⊎ ((max_u64 < total xs) × (sum_gas xs ≡ none))
unfolding sum_gas
sum_gas-total xs = ground (arith, gas_loop-total 0 xs (omega arith))
