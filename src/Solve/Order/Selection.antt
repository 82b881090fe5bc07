-- ===== src/Solve/Order/Selection.antt =====
-- internal/solve/solve.go, eligible: which orders are taken and which are counted as refused.
use mathlib.Core.List.{append-nil, append_assoc}
use mathlib.Core.Path.{subst}
use aladdin_solver_engine.Prelude.{
  Bool-cases, List, [], ap, arith, inl, inr, leb_ℤ, length, ltb_ℤ, pos, refl, sym, true, ℕ, ℤ, ◌&&◌,
  ◌++◌, ◌+◌, ◌∙◌, ◌∷◌, ◌≡◌, ◌⊎◌,
}
use aladdin_solver_engine.Solve.Order.{Order, eligible, eligible_loop, is_unsupported}
use aladdin_solver_engine.Solve.Order.Supported.{eligible-IsBounded}
use aladdin_solver_engine.Solve.Order.Settleable.{IsSettleable, IsSupported-iff}

-- Of the orders seen, those that can be settled, in their order, and the number of the others.
pub data Picks : List Order → List Order → ℕ → Type 0 where
  nothing : Picks [] [] 0
  taken :
      {seen picked : List Order} {refused : ℕ} (order : Order)
      → IsSettleable order
      → Picks seen picked refused
      → Picks (order ∷ seen) (order ∷ picked) refused
  refused_one :
      {seen picked : List Order} {refused : ℕ} (order : Order)
      → ¬ IsSettleable order
      → Picks seen picked refused
      → Picks (order ∷ seen) picked (refused + 1)

-- The limit of a positive `max` is reached.
abbrev pub Full : ℤ → ℕ → Type 0
Full max n = (ltb_ℤ (pos 0) max && leb_ℤ max (pos n)) ≡ true

-- The loop picks from the orders that it sees, and leaves some only when the limit is reached.
abbrev Selects : ℤ → List Order → List Order → ℕ → List Order × ℕ → Type 0
Selects max orders out unsupported result =
    (seen : List Order) × (left : List Order) × (picked : List Order) × (refused : ℕ) × (orders
      ≡ seen ++ left)
    × Picks seen picked refused
    × (result ≡ (out ++ picked, unsupported + refused))
    × ((left ≡ []) ⊎ Full max (length (out ++ picked)))

refuse-Selects :
    (max : ℤ) (o : Order) (rest out : List Order) (u : ℕ) (result : List Order × ℕ)
    → ¬ IsSettleable o
    → Selects max rest out (u + 1) result
    → Selects max (o ∷ rest) out u result
refuse-Selects max o rest out u result bad (seen, left, picked, refused, split, picks, e, stop) =
    let count : u + 1 + refused ≡ u + (refused + 1) = omega arith in
    (
      o ∷ seen,
      left,
      picked,
      refused + 1,
      ap (λ xs. o ∷ xs) split,
      refused_one o bad picks,
      e ∙ ap (λ n. (out ++ picked, n)) count,
      stop,
    )

take-Selects :
    (max : ℤ) (o : Order) (rest out : List Order) (u : ℕ) (result : List Order × ℕ)
    → IsSettleable o
    → Selects max rest (out ++ (o ∷ [])) u result
    → Selects max (o ∷ rest) out u result
take-Selects max o rest out u result good_order
      (seen, left, picked, refused, split, picks, e, stop) =
    let join : (out ++ (o ∷ [])) ++ picked ≡ out ++ (o ∷ picked) =
      append_assoc out (o ∷ []) picked in
    (
      o ∷ seen,
      left,
      o ∷ picked,
      refused,
      ap (λ xs. o ∷ xs) split,
      taken o good_order picks,
      e ∙ ap (λ xs. (xs, u + refused)) join,
      rw (← join) stop,
    )

same :
    (out picked : List Order) (u n : ℕ) {all : List Order}
    → out ++ picked ≡ all
    → u ≡ u + n
    → ◌≡◌ {A = List Order × ℕ} (all, u) (out ++ picked, u + n)
same out picked u n e f = rw (← e, ← f) refl

eligible_loop-Selects :
    (max : ℤ) (orders out : List Order) (u : ℕ)
    → Selects max orders out u (eligible_loop max orders out u)
unfolding eligible_loop
eligible_loop-Selects max [] out u =
    ([], [], [], 0, refl, nothing, same out [] u 0 (append-nil out) (omega arith), inl refl)
eligible_loop-Selects max (o ∷ rest) out u = elim (Bool-cases (is_unsupported o)) [
  | inl bad ↦
      rw (eligible_loop, bad)
        (refuse-Selects max o rest out u _
          (λ good_order. let good = (IsSupported-iff o).1 good_order in cc)
          (eligible_loop-Selects max rest out (u + 1)))
  | inr good ↦
      let good_order = (IsSupported-iff o).0 good in
      elim (Bool-cases (ltb_ℤ (pos 0) max && leb_ℤ max (pos (length (out ++ (o ∷ [])))))) [
        | inl full ↦
            rw (eligible_loop, good, full)
              (
                o ∷ [],
                rest,
                o ∷ [],
                0,
                refl,
                taken o good_order nothing,
                same out (o ∷ []) u 0 refl (omega arith),
                inr full,
              )
        | inr open_still ↦
            rw (eligible_loop, good, open_still)
              (take-Selects max o rest out u _ good_order
                (eligible_loop-Selects max rest (out ++ (o ∷ [])) u))
      ]
]

-- The orders taken are those of the orders seen that can be settled, and the others are counted; if
-- some orders were not seen, the number taken has reached a positive limit, and it never exceeds one.
abbrev pub IsSelection : ℤ → List Order → List Order × ℕ → Type 0
IsSelection max orders (picked, refused) =
    (seen : List Order) × (left : List Order) × (orders ≡ seen ++ left)
    × Picks seen picked refused
    × ((left ≡ []) ⊎ Full max (length picked))
    × ((leb_ℤ max (pos 0) ≡ true) ⊎ (leb_ℤ (pos (length picked)) max ≡ true))

-- The orders are read in turn until all are seen or the positive limit is reached: those seen are
-- taken, in their order, exactly if they have no interactions, wrappers, fees or flash loan, plain
-- tokens that differ up to case and a known kind; the others are counted; and no more orders are
-- taken than the limit.
pub eligible-IsSelection :
    (orders : List Order) (max : ℤ) → IsSelection max orders (eligible orders max)
unfolding eligible
eligible-IsSelection orders max =
    let (seen, left, picked, refused, split, picks, e, stop) =
      eligible_loop-Selects max orders [] 0 in
    let bounded = (eligible-IsBounded orders max).1 in
    subst (IsSelection max orders) (sym e) (
      seen,
      left,
      split,
      subst (λ n. Picks seen picked n) (counted refused) picks,
      stop,
      rw e at bounded,
    )
  where
    counted : (n : ℕ) → n ≡ 0 + n
    counted n = omega arith
