-- ===== src/Api/Notification/Kinds.antt =====
-- internal/api/notification_validation.go: the fields that each kind of notification needs.
use aladdin_solver_engine.Prelude.{
  Bool, Error, List, Option, Result, Text, [], bit_len_exceeds, codes, err, expected_boolean,
  expected_object, expected_string, expected_uint64, fail_if, false, if◌then◌else◌, invalid_hex,
  invalid_u256, is_empty, leb, length, map_get, mem_text, missing_field, neg_ℤ, negative, none, not,
  ok, parse_int, pos, some, text_eq, unsupported_kind_value, ℕ, ℤ, ◌%◌, ◌&&◌, ◌*◌, ◌+◌, ◌-◌, ◌==◌,
  ◌>>=◌, ◌>>◌, ◌||◌, ◌∷◌,
}
use aladdin_solver_engine.Json.{Json, bool, map_of, null, obj, str}
use aladdin_solver_engine.Contract.{Object, array, decode_uint64, each, is_null, object}
use aladdin_solver_engine.Solve.Liquidity.{decode_string_array}
use aladdin_solver_engine.Amm.Decimal.{all_digits}

-- A value, or an error.
abbrev pub or_error {ℓ} : {A : Type ℓ} → Option A → Error → Result A
or_error none e = err e
or_error (some a) e = ok a

-- A key that is absent or null is refused.
unfoldable pub notification_required_field : Object → Text → Result Json
notification_required_field fs name = elim (map_get fs name) [
  | none ↦ err missing_field
  | some j ↦ if is_null (some j) then err missing_field else ok j
]

-- `json.Unmarshal` into a string.
abbrev decode_string : Json → Result Text
decode_string (str s) = ok s
decode_string null = ok []
decode_string _ = err expected_string

abbrev decode_bool : Json → Result (Unit {0})
decode_bool (bool b) = ok tt
decode_bool null = ok tt
decode_bool _ = err expected_boolean

unfoldable pub notification_string_field : Object → Text → Result (Unit {0})
notification_string_field fs name = do
  raw ← notification_required_field fs name
  _ ← decode_string raw
  ok tt

unfoldable pub notification_bool_field : Object → Text → Result (Unit {0})
notification_bool_field fs name = notification_required_field fs name >>= decode_bool

unfoldable pub notification_uint64_field : Object → Text → Result (Unit {0})
notification_uint64_field fs name = do
  raw ← notification_required_field fs name
  _ ← or_error (decode_uint64 raw) expected_uint64
  ok tt

-- The value of a hexadecimal digit.
abbrev pub hex_digit : ℕ → Option ℕ
hex_digit c =
    if leb b'0' c && leb c b'9'
    then some (c - b'0')
    else if leb b'a' c && leb c b'f'
    then some (c - b'a' + 10)
    else if leb b'A' c && leb c b'F'
    then some (c - b'A' + 10)
    else none

unfoldable pub parse_hex_digits : Text → ℕ → Option ℕ
parse_hex_digits [] n = some n
parse_hex_digits (c ∷ rest) n = elim (hex_digit c) [
  | none ↦ none
  | some d ↦ parse_hex_digits rest (n * 16 + d)
]

-- The text after `0x`.
abbrev after_prefix : Text → Option Text
after_prefix (c ∷ d ∷ rest) = if (c == b'0') && (d == b'x') then some rest else none
after_prefix _ = none

-- No size stands for the source's -1; `hex.DecodeString` of an even number of digits.
unfoldable pub validate_hex_bytes : Text → Option ℕ → Result (Unit {0})
validate_hex_bytes value size = do
  encoded ← or_error (after_prefix value) invalid_hex
  fail_if (not (length encoded % 2 == 0)) invalid_hex
  fail_if (elim size [ none ↦ false | some n ↦ not (length encoded == n * 2) ]) invalid_hex
  _ ← or_error (parse_hex_digits encoded 0) invalid_hex
  ok tt

-- At least one digit.
abbrev parse_hex : Text → Option ℕ
parse_hex [] = none
parse_hex (c ∷ rest) = parse_hex_digits (c ∷ rest) 0

abbrev signed : (ℕ → ℤ) → Option ℕ → Option ℤ
signed sign none = none
signed sign (some n) = some (sign n)

-- `SetString(s, 16)`: a sign at most, then digits.
unfoldable pub parse_hex_int : Text → Option ℤ
parse_hex_int [] = none
parse_hex_int (c ∷ rest) =
    if c == b'-'
    then signed (λ n. neg_ℤ (pos n)) (parse_hex rest)
    else if c == b'+'
    then signed pos (parse_hex rest)
    else signed pos (parse_hex (c ∷ rest))

abbrev within_256 : Option ℤ → Bool
within_256 none = false
within_256 (some v) = not (negative v) && not (bit_len_exceeds v 256)

unfoldable pub valid_hex_or_decimal_u256 : Text → Bool
valid_hex_or_decimal_u256 value = elim (after_prefix value) [
  | some encoded ↦ within_256 (parse_hex_int encoded)
  | none ↦ not (is_empty value) && all_digits value && within_256 (parse_int value)
]

unfoldable pub notification_fixed_hex_field : Object → Text → ℕ → Result (Unit {0})
notification_fixed_hex_field fs name size = do
  raw ← notification_required_field fs name
  value ← decode_string raw
  validate_hex_bytes value (some size)

unfoldable pub notification_address_field : Object → Text → Result (Unit {0})
notification_address_field fs name = notification_fixed_hex_field fs name 20

-- A slice of strings that is not nil.
unfoldable pub hex_array : Object → Text → ℕ → Result (Unit {0})
hex_array fs name size = do
  raw ← notification_required_field fs name
  values ← decode_string_array (some raw)
  each (λ value. validate_hex_bytes value (some size)) values

unfoldable pub notification_address_set_field : Object → Text → Result (Unit {0})
notification_address_set_field fs name = hex_array fs name 20

unfoldable pub notification_u256_field : Object → Text → Result (Unit {0})
notification_u256_field fs name = do
  raw ← notification_required_field fs name
  value ← decode_string raw
  fail_if (not (valid_hex_or_decimal_u256 value)) invalid_u256
  ok tt

-- An item of the access list; a null is a map without keys.
unfoldable pub access_item : Json → Result (Unit {0})
access_item (obj fs) = do
  _ ← notification_address_field (map_of fs) (codes "address")
  hex_array (map_of fs) (codes "storageKeys") 32
access_item null = err missing_field
access_item _ = err expected_object

unfoldable pub notification_transaction_field : Object → Text → Result (Unit {0})
notification_transaction_field fs name = do
  raw ← notification_required_field fs name
  tx ← object (some raw)
  _ ← notification_address_field tx (codes "from")
  _ ← notification_address_field tx (codes "to")
  input ← notification_required_field tx (codes "input")
  input_hex ← decode_string input
  _ ← validate_hex_bytes input_hex none
  _ ← notification_u256_field tx (codes "value")
  access_list ← notification_required_field tx (codes "accessList")
  items ← array (some access_list)
  each access_item items

-- The kinds without fields of their own.
abbrev plain_kinds : List Text
plain_kinds =
    codes "timeout"
    ∷ codes "emptySolution"
    ∷ codes "duplicatedSolutionId"
    ∷ codes "invalidClearingPrices"
    ∷ codes "invalidExecutedAmount"
    ∷ codes "settlementStarted"
    ∷ codes "cancelled"
    ∷ codes "expired"
    ∷ codes "fail"
    ∷ codes "postprocessingTimedOut"
    ∷ []

abbrev simulation_failed : Object → Result (Unit {0})
simulation_failed fs = do
  _ ← notification_uint64_field fs (codes "block")
  _ ← notification_transaction_field fs (codes "tx")
  notification_bool_field fs (codes "succeededOnce")

unfoldable pub validate_notification_kind : Text → Object → Result (Unit {0})
validate_notification_kind kind fs =
    if mem_text kind plain_kinds
    then ok tt
    else if text_eq kind (codes "simulationFailed")
    then simulation_failed fs
    else if text_eq kind (codes "missingPrice")
    then notification_address_field fs (codes "tokenAddress")
    else if text_eq kind (codes "nonBufferableTokensUsed")
    then notification_address_set_field fs (codes "tokens")
    else if text_eq kind (codes "solverAccountInsufficientBalance")
    then notification_u256_field fs (codes "required")
    else if text_eq kind (codes "success") || text_eq kind (codes "revert")
    then notification_fixed_hex_field fs (codes "transaction") 32
    else if text_eq kind (codes "driverError") || text_eq kind (codes "deserializationError")
    then notification_string_field fs (codes "reason")
    else err unsupported_kind_value
