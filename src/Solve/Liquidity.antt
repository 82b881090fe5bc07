-- ===== src/Solve/Liquidity.antt =====
-- internal/api/types.go, Liquidity, and internal/solve/pools.go: the numbers that a liquidity source
-- writes as text, and its tokens.
use aladdin_solver_engine.Prelude.{
  Bool, List, Option, Result, Text, [], all_distinct, bit_len_exceeds, codes, equal_fold, err,
  expected_array, expected_object, expected_string, false, if◌then◌else◌, is_empty, keys, leb,
  leb_ℤ, length, ltb, ltb_ℤ, map, neg_ℤ, non_positive, none, not, ok, parse_int, parse_nat, pos,
  some, sort_texts, text_eq, to_lower, true, unexpected_end, ℕ, ℤ, ◌&&◌, ◌*◌, ◌+◌, ◌-◌, ◌/◌, ◌==◌,
  ◌>>=◌, ◌^◌, ◌||◌, ◌∷◌,
}
use aladdin_solver_engine.Json.{
  Fields, Json, Raw, arr, bool, field, items_of, map_of, no_fields, null, num, obj, str,
}
use aladdin_solver_engine.Amm.Decimal.{all_digits}

-- The tokens are the raw message; the map of ticks is in the order in which it is walked.
pub record Liquidity : Type 0 where
  pub kind : Text
  pub id : Text
  pub address : Text
  pub gas_estimate : Text
  pub tokens : Raw
  pub fee : Text
  pub router : Text
  pub amplification_parameter : Text
  pub balancer_pool_id : Text
  pub version : Text
  pub sqrt_price : Text
  pub liquidity : Text
  pub tick : Option ℤ
  pub liquidity_net : List (Text × Text)
  pub hash : Text
  pub maker_token : Text
  pub taker_token : Text
  pub maker_amount : Text
  pub taker_amount : Text
  pub taker_token_fee_amount : Text

unfoldable pub decimal_digits : Text → ℕ → Bool
decimal_digits raw max_digits = not (is_empty raw) && leb (length raw) max_digits && all_digits raw

unfoldable pub parse_positive_unsigned : Text → ℕ → Option ℤ
parse_positive_unsigned raw bits =
    if not (decimal_digits raw (bits * 30103 / 100000 + 1)) then none else elim (parse_int raw) [
      | none ↦ none
      | some value ↦ if non_positive value || bit_len_exceeds value bits then none else some value
    ]

abbrev minus_apart : Text → Text
minus_apart [] = []
minus_apart (c ∷ rest) = if c == b'-' then rest else c ∷ rest

unfoldable pub parse_signed_integer : Text → ℕ → Option ℤ
parse_signed_integer raw bits =
    if is_empty raw || ltb (1 + bits * 30103 / 100000 + 1) (length raw)
    then none
    else if not (decimal_digits (minus_apart raw) (length (minus_apart raw)))
    then none
    else elim (parse_int raw) [
      | none ↦ none
      | some value ↦
          if ltb_ℤ value (neg_ℤ (pos (2 ^ (bits - 1)))) || ltb_ℤ (pos (2 ^ (bits - 1) - 1)) value
          then none
          else some value
    ]

-- `strconv.ParseInt(raw, 10, 32)`.
unfoldable pub parse_int32 : Text → Option ℤ
parse_int32 raw = elim (parse_int raw) [
  | none ↦ none
  | some value ↦
      if ltb_ℤ value (neg_ℤ (pos (2 ^ 31))) || leb_ℤ (pos (2 ^ 31)) value then none else some value
]

-- `strconv.ParseUint(raw, 10, 64)` of digits.
unfoldable pub parse_uint64 : Text → Option ℕ
parse_uint64 raw = elim (parse_nat raw) [
  | none ↦ none
  | some value ↦ if ltb value (2 ^ 64) then some value else none
]

abbrev pub max_wire_decimal_length : ℕ
max_wire_decimal_length = 128

-- A trimmed text that is refused before it is read as a decimal.
unfoldable pub not_a_decimal : Text → Bool
not_a_decimal t =
    is_empty t
    || text_eq t (codes "-")
    || text_eq t (codes ".")
    || text_eq t (codes "-.")
    || ltb max_wire_decimal_length (length t)

-- A string field of a struct: a null leaves it alone, and names match up to case.
unfoldable pub string_member : Text → Fields → Text → Result Text
string_member name no_fields value = ok value
string_member name (field k j fs) value = elim (equal_fold k name) [
  | false ↦ string_member name fs value
  | true ↦ elim j [
    | str s ↦ string_member name fs s
    | null ↦ string_member name fs value
    | bool b ↦ err expected_string
    | num n ↦ err expected_string
    | arr xs ↦ err expected_string
    | obj gs ↦ err expected_string
  ]
]

-- A reserve: its balance and, in a stable pool, its scaling factor.
pub record Reserve : Type 0 where
  pub balance : Text
  pub scaling_factor : Text

unfoldable pub decode_reserve : Bool → Json → Result Reserve
decode_reserve scaled null = ok (record { balance = []; scaling_factor = [] })
decode_reserve scaled (obj fs) = do
  balance ← string_member (codes "balance") fs []
  factor ← if scaled then string_member (codes "scalingFactor") fs [] else ok []
  ok (record { balance = balance; scaling_factor = factor })
decode_reserve scaled j = err expected_object

unfoldable pub decode_entries : Bool → List (Text × Json) → Result (List (Text × Reserve))
decode_entries scaled [] = ok []
decode_entries scaled ((k, j) ∷ rest) = do
  reserve ← decode_reserve scaled j
  others ← decode_entries scaled rest
  ok ((k, reserve) ∷ others)

-- `json.Unmarshal` into a map of reserves; a null is the nil map.
unfoldable pub decode_reserves : Bool → Raw → Result (List (Text × Reserve))
decode_reserves scaled none = err unexpected_end
decode_reserves scaled (some j) = elim j [
  | obj fs ↦ decode_entries scaled (map_of fs)
  | null ↦ ok []
  | bool b ↦ err expected_object
  | num n ↦ err expected_object
  | str s ↦ err expected_object
  | arr xs ↦ err expected_object
]

unfoldable pub decode_strings : List Json → Result (List Text)
decode_strings [] = ok []
decode_strings (str s ∷ rest) = do others ← decode_strings rest; ok (s ∷ others)
decode_strings (null ∷ rest) = do others ← decode_strings rest; ok ([] ∷ others)
decode_strings (j ∷ rest) = err expected_string

-- `json.Unmarshal` into a slice of strings.
unfoldable pub decode_string_array : Raw → Result (List Text)
decode_string_array none = err unexpected_end
decode_string_array (some j) = elim j [
  | arr xs ↦ decode_strings (items_of xs)
  | null ↦ ok []
  | bool b ↦ err expected_array
  | num n ↦ err expected_array
  | str s ↦ err expected_array
  | obj fs ↦ err expected_array
]

-- `reserveOf`: of the first key equal to the address up to case.
unfoldable pub reserve_at : List (Text × Reserve) → Text → Option Reserve
reserve_at [] address = none
reserve_at ((key, reserve) ∷ rest) address =
    if equal_fold key address then some reserve else reserve_at rest address

-- The keys in lower case, in order; none if two of them are equal up to case.
unfoldable pub addresses_of : List (Text × Reserve) → Option (List Text)
addresses_of tokens =
    let lower = map to_lower (keys tokens) in
    if all_distinct lower then some (sort_texts lower) else none
