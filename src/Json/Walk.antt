-- ===== src/Json/Walk.antt =====
-- internal/contract/contract.go, ValidateUniqueJSON and walkJSONValue: no object of a document has a
-- key twice.
pub mod Unique
use aladdin_solver_engine.Prelude.{
  Bool, List, Result, Text, [], duplicate_key, err, false, key_not_string, length, mem_text,
  multiple_values, none, ok, out_of_rounds, some, suc, true, unexpected_delimiter, unexpected_end,
  unterminated_array, unterminated_object, zero, ℕ, ◌*◌, ◌+◌, ◌>>=◌, ◌∷◌,
}
use aladdin_solver_engine.Json.{
  Raw, Token, close_array, close_object, open_array, open_object, scalar, text, tokens_of,
}

-- `decoder.Token()`: at the end of the input it is an error.
abbrev pub next_token : List Token → Result (Token × List Token)
next_token [] = err unexpected_end
next_token (t ∷ ts) = ok (t, ts)

-- `decoder.More()`: another element or field comes before the end of the array or object.
abbrev pub more : List Token → Bool
more [] = false
more (close_object ∷ ts) = false
more (close_array ∷ ts) = false
more (t ∷ ts) = true

abbrev pub expect_object_end : List Token → Result (List Token)
expect_object_end ts =
    next_token ts >>= λ (t, rest). elim t [ close_object ↦ ok rest | _ ↦ err unterminated_object ]

abbrev pub expect_array_end : List Token → Result (List Token)
expect_array_end ts =
    next_token ts >>= λ (t, rest). elim t [ close_array ↦ ok rest | _ ↦ err unterminated_array ]

abbrev pub expect_key : Token → Result Text
expect_key (text key) = ok key
expect_key t = err key_not_string

-- The function and its two loops, over the tokens that are left. Each call takes one of the rounds.
unfoldable mutual
  pub walk_json_value : ℕ → List Token → Result (List Token)
  walk_json_value zero ts = err out_of_rounds
  walk_json_value (suc left) ts = next_token ts >>= λ (token, rest). elim token [
    | text s ↦ ok rest
    | scalar ↦ ok rest
    | open_object ↦ walk_fields left [] rest
    | open_array ↦ walk_items left rest
    | close_object ↦ err unexpected_delimiter
    | close_array ↦ err unexpected_delimiter
  ]

  pub walk_fields : ℕ → List Text → List Token → Result (List Token)
  walk_fields zero seen ts = err out_of_rounds
  walk_fields (suc left) seen ts = elim (more ts) [
    | false ↦ expect_object_end ts
    | true ↦ next_token ts >>= λ (token, rest). expect_key token >>= λ key.
        elim (mem_text key seen) [
          | true ↦ err duplicate_key
          | false ↦ walk_json_value left rest >>= λ rest'. walk_fields left (key ∷ seen) rest'
        ]
  ]

  pub walk_items : ℕ → List Token → Result (List Token)
  walk_items zero ts = err out_of_rounds
  walk_items (suc left) ts = elim (more ts) [
    | false ↦ expect_array_end ts
    | true ↦ walk_json_value left ts >>= λ rest'. walk_items left rest'
  ]

-- The rounds that the tokens can need.
abbrev pub rounds_for : List Token → ℕ
rounds_for ts = 2 * length ts + 2

-- Over the tokens of the input: one value, and nothing after it.
unfoldable pub validate_unique_tokens : List Token → Result (Unit {0})
validate_unique_tokens ts = walk_json_value (rounds_for ts) ts >>= λ rest. elim rest [
  | [] ↦ ok tt
  | t ∷ more_tokens ↦ err multiple_values
]

-- `ValidateUniqueJSON` of the bytes of a document; bytes that denote no value have no tokens here.
unfoldable pub validate_unique_json : Raw → Result (Unit {0})
validate_unique_json none = err unexpected_end
validate_unique_json (some j) = validate_unique_tokens (tokens_of j)
