-- ===== src/Server/Budget.antt =====
-- internal/server/server.go, handleSolve: the time that is left for the solver, an int64 of
-- nanoseconds.
use aladdin_solver_engine.Prelude.{
  arith, false, ltb_ℤ, negsuc, non_positive, pos, true, ℕ, ℤ, ◌-ℤ◌, ◌-◌, ◌^◌, ◌↔◌, ◌≡◌, ◌⊎◌,
}
use aladdin_solver_engine.Server.Handlers.{budget_of, less_reserve, reserve, saturate}

-- More than 200 milliseconds are left, or the deadline is so long past that they wrap.
abbrev pub HasTime : ℤ → Type 0
HasTime left = (ltb_ℤ reserve left ≡ true) ⊎ (ltb_ℤ left (negsuc (2 ^ 63 - 200_000_001)) ≡ true)

of_future : (n : ℕ) → (non_positive (less_reserve (saturate (pos n))) ≡ false) ↔ HasTime (pos n)
unfolding less_reserve saturate
of_future n = ground arith

of_past : (n : ℕ) → (non_positive (less_reserve (saturate (negsuc n))) ≡ false) ↔ HasTime (negsuc n)
unfolding less_reserve saturate
of_past n = ground arith

HasTime-cases : (d : ℤ) → (non_positive (less_reserve (saturate d)) ≡ false) ↔ HasTime d
HasTime-cases (pos n) = of_future n
HasTime-cases (negsuc n) = of_past n

-- The budget is positive exactly when more than 200 milliseconds are left until the deadline, or when
-- the deadline is past by more than 2^63 nanoseconds less 200 milliseconds.
pub budget_of-HasTime :
    (deadline now : ℤ) → (non_positive (budget_of deadline now) ≡ false) ↔ HasTime (deadline -ℤ now)
unfolding budget_of
budget_of-HasTime deadline now = HasTime-cases (deadline -ℤ now)
