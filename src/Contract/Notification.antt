-- ===== src/Contract/Notification.antt =====
-- internal/contract/contract.go, ValidateNotificationJSON.
use aladdin_solver_engine.Prelude.{
  Option, Result, Text, codes, err, if◌then◌else◌, invalid_integer, leb_ℤ, ltb_ℤ, map_get,
  missing_field, neg_ℤ, none, ok, parse_int, pos, some, ℤ, ◌&&◌, ◌>>=◌, ◌>>◌, ◌^◌,
}
use aladdin_solver_engine.Json.{Raw, arr, items_of, str}
use aladdin_solver_engine.Json.Walk.{validate_unique_json}
use aladdin_solver_engine.Contract.{each, object, string_value, uint64_number_value, unless_null}

-- `strconv.ParseInt(s, 10, 64)`: a sign at most, digits, and the range of 64 bits.
unfoldable pub parse_int64 : Text → Option ℤ
parse_int64 s = elim (parse_int s) [
  | none ↦ none
  | some v ↦ if leb_ℤ (neg_ℤ (pos (2 ^ 63))) v && ltb_ℤ v (pos (2 ^ 63)) then some v else none
]

-- An array of numbers, or one number.
unfoldable pub notification_solution_id_value : Raw → Result (Unit {0})
notification_solution_id_value (some (arr xs)) =
    each (λ j. uint64_number_value (some j)) (items_of xs)
notification_solution_id_value raw = uint64_number_value raw

abbrev auction_id_value : Raw → Result (Unit {0})
auction_id_value (some (str s)) = elim (parse_int64 s) [
  | none ↦ err invalid_integer
  | some v ↦ ok tt
]
auction_id_value _ = err invalid_integer

unfoldable pub validate_notification_json : Raw → Result (Unit {0})
validate_notification_json raw = do
  validate_unique_json raw
  value ← object raw
  elim (map_get value (codes "kind")) [
    | none ↦ err missing_field
    | some kind ↦ string_value (some kind)
  ]
  unless_null value (codes "auctionId") auction_id_value
  unless_null value (codes "solutionId") notification_solution_id_value
