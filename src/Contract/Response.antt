-- ===== src/Contract/Response.antt =====
-- internal/contract/contract.go, ValidateSolveResponseJSON.
use aladdin_solver_engine.Prelude.{
  List, Result, Text, [], codes, err, fail_if, map_get, not, ok, some, text_eq,
  unsupported_kind_value, ◌>>=◌, ◌>>◌, ◌∷◌,
}
use aladdin_solver_engine.Json.{Json, Raw}
use aladdin_solver_engine.Json.Walk.{validate_unique_json}
use aladdin_solver_engine.Contract.{
  Object, array, bool_value, each, fields, number_value, object, required_string, string_value,
}

abbrev expect_kind : Object → Text → Result (Unit {0})
expect_kind value expected = elim (required_string value (codes "kind")) [
  | err e ↦ err unsupported_kind_value
  | ok kind ↦ fail_if (not (text_eq kind expected)) unsupported_kind_value
]

unfoldable pub validate_trade : Json → Result (Unit {0})
validate_trade raw = do
  trade ← object (some raw)
  fields trade (codes "kind" ∷ codes "order" ∷ codes "executedAmount" ∷ [])
      (codes "kind" ∷ codes "order" ∷ codes "executedAmount" ∷ codes "fee" ∷ [])
  expect_kind trade (codes "fulfillment")

abbrev interaction_names : List Text
interaction_names =
    codes "kind"
    ∷ codes "id"
    ∷ codes "inputToken"
    ∷ codes "outputToken"
    ∷ codes "inputAmount"
    ∷ codes "outputAmount"
    ∷ codes "internalize"
    ∷ []

unfoldable pub validate_interaction : Json → Result (Unit {0})
validate_interaction raw = do
  interaction ← object (some raw)
  fields interaction interaction_names interaction_names
  expect_kind interaction (codes "liquidity")
  string_value (map_get interaction (codes "id"))
  bool_value (map_get interaction (codes "internalize"))

abbrev solution_allowed : List Text
solution_allowed =
    codes "id"
    ∷ codes "prices"
    ∷ codes "trades"
    ∷ codes "preInteractions"
    ∷ codes "interactions"
    ∷ codes "postInteractions"
    ∷ codes "gas"
    ∷ codes "maxFeePerGas"
    ∷ codes "maxPriorityFeePerGas"
    ∷ codes "flashloans"
    ∷ codes "wrappers"
    ∷ []

unfoldable pub validate_solution : Json → Result (Unit {0})
validate_solution raw = do
  solution ← object (some raw)
  fields solution (codes "id" ∷ codes "prices" ∷ codes "trades" ∷ codes "interactions" ∷ [])
      solution_allowed
  number_value (map_get solution (codes "id"))
  prices ← object (map_get solution (codes "prices"))
  each (λ (token, price). string_value (some price)) prices
  trades ← array (map_get solution (codes "trades"))
  each validate_trade trades
  interactions ← array (map_get solution (codes "interactions"))
  each validate_interaction interactions

unfoldable pub validate_solve_response_json : Raw → Result (Unit {0})
validate_solve_response_json raw = do
  validate_unique_json raw
  root ← object raw
  fields root (codes "solutions" ∷ []) (codes "solutions" ∷ [])
  solutions ← array (map_get root (codes "solutions"))
  each validate_solution solutions
