-- ===== src/Contract.antt =====
-- internal/contract/contract.go: the checks of documents against the wire contract. Of an error only
-- its kind is kept, not the path that its message names.
pub mod Auction
pub mod Response
pub mod Notification
use aladdin_solver_engine.Prelude.{
  Bool, List, Option, Result, Text, [], err, expected_array, expected_boolean, expected_number,
  expected_object, expected_string, expected_uint64, fail_if, false, has_key, if◌then◌else◌,
  is_digit, keys, ltb, map_get, mem_text, missing_field, none, not, ok, parse_nat, some, text_eq,
  true, unknown_field, ℕ, ◌&&◌, ◌==◌, ◌>>=◌, ◌>>◌, ◌^◌, ◌||◌, ◌∷◌,
}
use aladdin_solver_engine.Json.{Json, Raw, arr, bool, items_of, map_of, null, num, obj, str}

-- The map of an object.
abbrev pub Object : Type 0
Object = List (Text × Json)

-- `isNull`.
abbrev pub is_null : Raw → Bool
is_null (some null) = true
is_null _ = false

unfoldable pub object : Raw → Result Object
object none = err expected_object
object (some null) = err expected_object
object (some (bool b)) = err expected_object
object (some (num n)) = err expected_object
object (some (str s)) = err expected_object
object (some (arr xs)) = err expected_object
object (some (obj fs)) = ok (map_of fs)

unfoldable pub array : Raw → Result (List Json)
array none = err expected_array
array (some null) = err expected_array
array (some (bool b)) = err expected_array
array (some (num n)) = err expected_array
array (some (str s)) = err expected_array
array (some (arr xs)) = ok (items_of xs)
array (some (obj fs)) = err expected_array

-- The loop over the required names, and the one over the names that are there.
unfoldable pub missing : Object → List Text → Bool
missing value [] = false
missing value (name ∷ names) = not (has_key value name) || missing value names

unfoldable pub unknown : List Text → List Text → Bool
unknown [] allowed = false
unknown (name ∷ names) allowed = not (mem_text name allowed) || unknown names allowed

unfoldable pub fields : Object → List Text → List Text → Result (Unit {0})
fields value required allowed = do
  fail_if (missing value required) missing_field
  fail_if (unknown (keys value) allowed) unknown_field
  ok tt

-- A null decodes to the empty string here.
unfoldable pub required_string : Object → Text → Result Text
required_string value name = elim (map_get value name) [
  | none ↦ err missing_field
  | some j ↦ elim j [
    | null ↦ ok []
    | str s ↦ ok s
    | bool b ↦ err expected_string
    | num n ↦ err expected_string
    | arr xs ↦ err expected_string
    | obj fs ↦ err expected_string
  ]
]

unfoldable pub string_value : Raw → Result (Unit {0})
string_value (some (str s)) = ok tt
string_value _ = err expected_string

unfoldable pub bool_value : Raw → Result (Unit {0})
bool_value (some (bool b)) = ok tt
bool_value _ = err expected_boolean

-- The digits at the head of a text, and what follows them.
unfoldable pub after_digits : Text → Text
after_digits [] = []
after_digits (c ∷ rest) = let rest' = after_digits rest in if is_digit c then rest' else c ∷ rest

-- `isValidNumber` of encoding/json, in the order of its parts.
abbrev skip_minus : Text → Text
skip_minus [] = []
skip_minus (c ∷ rest) = if c == b'-' then rest else c ∷ rest

abbrev skip_integer : Text → Option Text
skip_integer [] = none
skip_integer (c ∷ rest) =
    if c == b'0' then some rest else if is_digit c then some (after_digits rest) else none

abbrev skip_fraction : Text → Text
skip_fraction (c ∷ d ∷ rest) = if (c == b'.') && is_digit d then after_digits rest else c ∷ d ∷ rest
skip_fraction s = s

abbrev skip_power : Text → Option Text
skip_power [] = none
skip_power (c ∷ rest) =
    if (c == b'+') || (c == b'-')
    then (if text_eq rest [] then none else some (after_digits rest))
    else some (after_digits (c ∷ rest))

abbrev skip_exponent : Text → Option Text
skip_exponent (c ∷ d ∷ rest) =
    if (c == b'e') || (c == b'E') then skip_power (d ∷ rest) else some (c ∷ d ∷ rest)
skip_exponent s = some s

unfoldable pub is_valid_number : Text → Bool
is_valid_number s = elim (skip_integer (skip_minus s)) [
  | none ↦ false
  | some rest ↦ elim (skip_exponent (skip_fraction rest)) [
    | none ↦ false
    | some end ↦ text_eq end []
  ]
]

-- A `json.Number` takes a number, and a string that holds one.
unfoldable pub number_value : Raw → Result (Unit {0})
number_value (some (num n)) = ok tt
number_value (some (str s)) = if is_valid_number s then ok tt else err expected_number
number_value _ = err expected_number

-- A number decodes to a `uint64` if it is written with digits only and fits.
unfoldable pub decode_uint64 : Json → Option ℕ
decode_uint64 (num n) = elim (parse_nat n) [
  | none ↦ none
  | some v ↦ if ltb v (2 ^ 64) then some v else none
]
decode_uint64 _ = none

unfoldable pub uint64_number_value : Raw → Result (Unit {0})
uint64_number_value none = err expected_uint64
uint64_number_value (some j) = elim (decode_uint64 j) [
  | none ↦ err expected_uint64
  | some v ↦ ok tt
]

-- A loop whose body may return an error.
abbrev pub each {ℓ} : {A : Type ℓ} → (A → Result (Unit {0})) → List A → Result (Unit {0})
each f [] = ok tt
each f (x ∷ xs) = f x >>= λ _. each f xs

-- Strings at each of the names.
abbrev pub strings_at : Object → List Text → Result (Unit {0})
strings_at value names = each (λ name. string_value (map_get value name)) names

-- A key that may be absent.
abbrev pub when_present : Object → Text → (Raw → Result (Unit {0})) → Result (Unit {0})
when_present value name f = elim (map_get value name) [ none ↦ ok tt | some j ↦ f (some j) ]

-- A key that may be absent or null.
abbrev pub unless_null : Object → Text → (Raw → Result (Unit {0})) → Result (Unit {0})
unless_null value name f = when_present value name (λ raw. if is_null raw then ok tt else f raw)

-- Objects with just these fields.
abbrev pub exact_object : List Text → Json → Result (Unit {0})
exact_object names j = object (some j) >>= λ value. fields value names names
