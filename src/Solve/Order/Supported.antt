-- ===== src/Solve/Order/Supported.antt =====
-- internal/solve/solve.go, eligible: the orders that are taken.
use mathlib.Core.Path.{subst}
use aladdin_solver_engine.Prelude.{
  All, All-append, Bool-cases, List, [], arith, false, inl, inr, leb_ℤ, length, length-append,
  ltb_ℤ, negsuc, pos, refl, suc, true, zero, ℕ, ℤ, ◌&&◌, ◌++◌, ◌+◌, ◌∷◌, ◌≡◌, ◌≤◌, ◌⊎◌,
}
use aladdin_solver_engine.Solve.Order.{Order, eligible, eligible_loop, is_unsupported}

abbrev pub IsSupported : Order → Type 0
IsSupported order = is_unsupported order ≡ false

-- Supported orders only, at most as many as the positive limit, and no order counted twice.
abbrev pub IsBounded : ℤ → ℕ → List Order × ℕ → Type 0
IsBounded max given (taken, unsupported) =
    All IsSupported taken
    × ((leb_ℤ max (pos 0) ≡ true) ⊎ (leb_ℤ (pos (length taken)) max ≡ true))
    × (length taken + unsupported ≤ given)

below_limit :
    (max : ℤ) (n : ℕ)
    → (ltb_ℤ (pos 0) max && leb_ℤ max (pos n)) ≡ false
    → (leb_ℤ max (pos 0) ≡ true) ⊎ (leb_ℤ (pos (n + 1)) max ≡ true)
below_limit (pos m) n h = ground arith
below_limit (negsuc m) n h = inl refl

weaker :
    (max : ℤ) (n : ℕ)
    → (leb_ℤ max (pos 0) ≡ true) ⊎ (leb_ℤ (pos (n + 1)) max ≡ true)
    → (leb_ℤ max (pos 0) ≡ true) ⊎ (leb_ℤ (pos n) max ≡ true)
weaker (pos m) n h = ground arith
weaker (negsuc m) n h = inl refl

eligible_loop-IsBounded :
    (max : ℤ) (orders out : List Order) (u : ℕ)
    → All IsSupported out
    → (leb_ℤ max (pos 0) ≡ true) ⊎ (leb_ℤ (pos (length out + 1)) max ≡ true)
    → IsBounded max (length out + u + length orders) (eligible_loop max orders out u)
unfolding eligible_loop
eligible_loop-IsBounded max [] out u all room = (all, weaker max (length out) room, omega arith)
eligible_loop-IsBounded max (o ∷ rest) out u all room = elim (Bool-cases (is_unsupported o)) [
  | inl bad ↦
      let e : length out + (u + 1) + length rest ≡ length out + u + suc (length rest) =
        omega arith in
      rw (eligible_loop, bad)
        (subst (λ n. IsBounded max n (eligible_loop max rest out (u + 1))) e
          (eligible_loop-IsBounded max rest out (u + 1) all room))
  | inr good ↦
      let more = length-append out (o ∷ []) in
      let all' = All-append IsSupported out (o ∷ []) all (good, tt) in
      elim (Bool-cases (ltb_ℤ (pos 0) max && leb_ℤ max (pos (length (out ++ (o ∷ [])))))) [
        | inl full ↦ rw (eligible_loop, good, full) (all', rw more room, omega (arith, more))
        | inr open_still ↦
            let e : length (out ++ (o ∷ [])) + u + length rest
                ≡ length out + u + suc (length rest) =
              omega (arith, more) in
            rw (eligible_loop, good, open_still)
              (subst (λ n. IsBounded max n (eligible_loop max rest (out ++ (o ∷ [])) u)) e
                (eligible_loop-IsBounded max rest (out ++ (o ∷ [])) u all'
                  (below_limit max _ open_still)))
      ]
]

some_room : (max : ℤ) → (leb_ℤ max (pos 0) ≡ true) ⊎ (leb_ℤ (pos (0 + 1)) max ≡ true)
some_room (pos zero) = inl refl
some_room (pos (suc m)) = inr (ground arith)
some_room (negsuc m) = inl refl

-- The orders taken are all supported, a positive limit is not exceeded, and the orders taken and
-- those counted as unsupported are together at most those given.
pub eligible-IsBounded :
    (orders : List Order) (max : ℤ) → IsBounded max (length orders) (eligible orders max)
unfolding eligible
eligible-IsBounded orders max =
    let e : 0 + 0 + length orders ≡ length orders = omega arith in
    subst (λ n. IsBounded max n (eligible_loop max orders [] 0)) e
      (eligible_loop-IsBounded max orders [] 0 tt (some_room max))
