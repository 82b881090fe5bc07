-- ===== src/Solve/Profit.antt =====
-- internal/solve/solve.go: is a solution worth its gas?
use aladdin_solver_engine.Prelude.{
  Bool, List, Option, Text, [], equal_fold, false, if◌then◌else◌, ltb_ℤ, negative, non_positive,
  none, not, parse_int, pos, quo, some, text_eq, true, ℕ, ℤ, ◌*ℤ◌, ◌^◌, ◌||◌, ◌∷◌,
}

pub record TokenInfo : Type 0 where
  pub decimals : Option ℤ
  pub symbol : Text
  pub reference_price : Text
  pub available_balance : Text
  pub trusted : Bool

-- The auction's tokens, in the order in which the map is walked.
abbrev pub Tokens : Type 0
Tokens = List (Text × TokenInfo)

abbrev pub wei : ℤ
wei = pos (10 ^ 18)

-- A price of the text, which must not be negative, and the amount at that price.
unfoldable pub at_price : ℤ → Text → Option ℤ
at_price amount raw = elim (parse_int raw) [
  | none ↦ none
  | some price ↦ if negative price then none else some (quo (amount *ℤ price) wei)
]

unfoldable pub to_native : ℤ → Text → Tokens → Option ℤ
to_native amount token [] = none
to_native amount token ((address, info) ∷ rest) =
    let others = to_native amount token rest in
    if not (equal_fold address token) || text_eq info.reference_price []
    then others
    else at_price amount info.reference_price

unfoldable pub profitable : ℤ → Text → ℕ → ℤ → Tokens → Bool
profitable surplus token gas gas_price tokens =
    if non_positive surplus then false else elim (to_native surplus token tokens) [
      | none ↦ true
      | some native ↦ ltb_ℤ (pos gas *ℤ gas_price) native
    ]

unfoldable pub amount_or_zero : Text → ℤ
amount_or_zero value = elim (parse_int value) [ none ↦ pos 0 | some amount ↦ amount ]
