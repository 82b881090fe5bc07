-- ===== src/Api/Encode.antt =====
-- internal/api/types.go, SolveResponse, Solution, Trade and Interaction: their JSON, by the tags of
-- their fields.
pub mod Valid
pub mod Distinct
use aladdin_solver_engine.Prelude.{
  List, Option, Text, [], codes, if◌then◌else◌, none, show_nat, some, text_ltb, ℕ, ◌==◌, ◌∷◌,
}
use aladdin_solver_engine.Json.{
  Fields, Items, Json, arr, bool, field, item, no_fields, no_items, null, num, obj, str,
}
use aladdin_solver_engine.Solve.Order.{Interaction, Solution, Trade}

insert_entry : Text × Text → List (Text × Text) → List (Text × Text)
insert_entry e [] = e ∷ []
insert_entry (k, v) ((l, w) ∷ rest) =
    let rest' = insert_entry (k, v) rest in
    if text_ltb l k then (l, w) ∷ rest' else (k, v) ∷ (l, w) ∷ rest

-- `json.Marshal` writes the keys of a map in order.
unfoldable pub sort_entries : List (Text × Text) → List (Text × Text)
unfolding insert_entry
sort_entries [] = []
sort_entries (e ∷ es) = insert_entry e (sort_entries es)

unfoldable pub string_fields : List (Text × Text) → Fields
string_fields [] = no_fields
string_fields ((k, v) ∷ rest) = field k (str v) (string_fields rest)

-- A slice that is not nil.
unfoldable pub encode_items {ℓ} : {A : Type ℓ} → (A → Json) → List A → Items
encode_items f [] = no_items
encode_items f (x ∷ xs) = item (f x) (encode_items f xs)

-- An empty string is left out.
unfoldable pub unless_empty : Text → Text → Fields
unless_empty name [] = no_fields
unless_empty name (c ∷ cs) = field name (str (c ∷ cs)) no_fields

-- And so is a zero.
unfoldable pub unless_zero : Text → ℕ → Fields
unless_zero name n = if n == 0 then no_fields else field name (num (show_nat n)) no_fields

unfoldable pub encode_trade : Trade → Json
encode_trade t = obj (
    field (codes "kind") (str t.kind) (
      field (codes "order") (str t.order) (
        field (codes "executedAmount") (str t.executed_amount) (unless_empty (codes "fee") t.fee))))

unfoldable pub encode_interaction : Interaction → Json
encode_interaction i = obj (
    field (codes "kind") (str i.kind) (
      field (codes "id") (str i.id) (
        field (codes "inputToken") (str i.input_token) (
          field (codes "outputToken") (str i.output_token) (
            field (codes "inputAmount") (str i.input_amount) (
              field (codes "outputAmount") (str i.output_amount)
                (field (codes "internalize") (bool i.internalize) no_fields)))))))

unfoldable pub encode_solution : Solution → Json
encode_solution s = obj (
    field (codes "id") (num (show_nat s.id)) (
      field (codes "prices") (obj (string_fields (sort_entries s.prices))) (
        field (codes "trades") (arr (encode_items encode_trade s.trades)) (
          field (codes "interactions") (arr (encode_items encode_interaction s.interactions))
            (unless_zero (codes "gas") s.gas)))))

-- A nil slice is `null`.
unfoldable pub encode_slice {ℓ} : {A : Type ℓ} → (A → Json) → Option (List A) → Json
encode_slice f none = null
encode_slice f (some xs) = arr (encode_items f xs)

unfoldable pub encode_response : Option (List Solution) → Json
encode_response solutions =
    obj (field (codes "solutions") (encode_slice encode_solution solutions) no_fields)
