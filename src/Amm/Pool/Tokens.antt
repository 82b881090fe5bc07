-- ===== src/Amm/Pool/Tokens.antt =====
-- What `Supports` and `Other` decide.
use aladdin_solver_engine.Prelude.{
  Bool, List, Text, [], arith, equal_fold, false, true, ◌||◌, ◌↔◌, ◌∷◌, ◌≡◌, ◌⊎◌,
}
use aladdin_solver_engine.Amm.Pool.{Pool, all_tokens, supports, supports_loop}

-- Some token of the list is equal to the given one up to case.
abbrev pub Holds : Text → List Text → Type 0
Holds token [] = ⊥
Holds token (t ∷ ts) = (equal_fold t token ≡ true) ⊎ Holds token ts

supports_loop-true :
    (a b : Text) (l : List Text) (x y : Bool)
    → supports_loop a b l x y ≡ true
    → ((x ≡ true) ⊎ Holds a l) × ((y ≡ true) ⊎ Holds b l)
unfolding supports_loop
supports_loop-true a b [] x y h = ground arith
supports_loop-true a b (t ∷ ts) x y h =
    ground (arith, supports_loop-true a b ts (x || equal_fold t a) (y || equal_fold t b))

supports_loop_complete :
    (a b : Text) (l : List Text) (x y : Bool)
    → (x ≡ true) ⊎ Holds a l
    → (y ≡ true) ⊎ Holds b l
    → supports_loop a b l x y ≡ true
unfolding supports_loop
supports_loop_complete a b [] x y h k = ground arith
supports_loop_complete a b (t ∷ ts) x y h k =
    ground (arith, supports_loop_complete a b ts (x || equal_fold t a) (y || equal_fold t b))

-- A pool supports an ordered pair exactly when the tokens differ and it holds both.
pub supports_iff :
    (p : Pool) (a b : Text)
    → (supports p a b ≡ true)
      ↔ ((equal_fold a b ≡ false) × Holds a (all_tokens p) × Holds b (all_tokens p))
unfolding supports
supports_iff p a b = (
  λ h. ground (arith, supports_loop-true a b (all_tokens p) false false),
  λ h. ground (arith, supports_loop_complete a b (all_tokens p) false false),
)
