-- ===== src/Api/Encode/Valid.antt =====
-- internal/server/server.go, writeJSON: the responses that pass the contract's own check.
use mathlib.Core.Path.{subst}
use aladdin_solver_engine.Api.Encode.Distinct.{fee-cases, gas-cases, nil-unique, response-unique}
use aladdin_solver_engine.Prelude.{
  All, All-map, Bool-cases, List, Result, Text, [], all_distinct, ap, codes, err, expected_array,
  inl, inr, keys, map, map_get, map_put, mem_text, none, ok, refl, some, sym, text_eq, true, ◌∷◌,
  ◌≡◌,
}
use aladdin_solver_engine.Json.{Json, add_fields, items_of, map_of, str}
use aladdin_solver_engine.Json.Walk.{validate_unique_json}
use aladdin_solver_engine.Json.Walk.Unique.{validate_unique_json-unique}
use aladdin_solver_engine.Contract.{
  array, bool_value, each, fields, missing, number_value, object, required_string, string_value,
  unknown,
}
use aladdin_solver_engine.Contract.Response.{
  validate_interaction, validate_solution, validate_solve_response_json, validate_trade,
}
use aladdin_solver_engine.Solve.Order.{Interaction, Solution, Trade}
use aladdin_solver_engine.Api.Encode.{
  encode_interaction, encode_items, encode_response, encode_slice, encode_solution, encode_trade,
  sort_entries, string_fields,
}

-- What the contract wants of a solution that the record itself does not give.
abbrev pub IsWireSolution : Solution → Type 0
IsWireSolution s =
    (all_distinct (keys s.prices) ≡ true)
    × All (λ t. Trade.kind t ≡ codes "fulfillment") s.trades
    × All (λ i. Interaction.kind i ≡ codes "liquidity") s.interactions

each-ok :
    {A : Type 0} (f : A → Result (Unit {0})) (xs : List A)
    → All (λ x. f x ≡ ok tt) xs
    → each f xs ≡ ok tt
each-ok f [] h = refl
each-ok f (x ∷ xs) (h, hs) = rw h (each-ok f xs hs)

items_of-encode_items :
    {A : Type 0} (f : A → Json) (xs : List A) → items_of (encode_items f xs) ≡ map f xs
unfolding items_of encode_items
items_of-encode_items f [] = refl
items_of-encode_items f (x ∷ xs) = ap (λ l. f x ∷ l) (items_of-encode_items f xs)

All-mapped :
    {A B : Type 0} (P : B → Type 0) (f : A → B) (xs : List A)
    → All (λ x. P (f x)) xs
    → All P (map f xs)
All-mapped P f [] h = tt
All-mapped P f (x ∷ xs) (h, hs) = (h, All-mapped P f xs hs)

-- A slice whose elements pass.
encoded-ok :
    {A : Type 0} (f : A → Json) (check : Json → Result (Unit {0})) (xs : List A)
    → All (λ x. check (f x) ≡ ok tt) xs
    → each check (items_of (encode_items f xs)) ≡ ok tt
encoded-ok f check xs h =
    subst (λ l. each check l ≡ ok tt) (sym (items_of-encode_items f xs))
      (each-ok check (map f xs) (All-mapped (λ j. check j ≡ ok tt) f xs h))

trade-ok : (t : Trade) → t.kind ≡ codes "fulfillment" → validate_trade (encode_trade t) ≡ ok tt
unfolding validate_trade encode_trade object add_fields map_put fields missing unknown mem_text
    map_get required_string text_eq
trade-ok t h = elim (fee-cases t.fee) [ inl e ↦ rw (e, h) refl | inr e ↦ rw (e, h) refl ]

interaction-ok :
    (i : Interaction)
    → i.kind ≡ codes "liquidity"
    → validate_interaction (encode_interaction i) ≡ ok tt
unfolding validate_interaction encode_interaction object add_fields map_put fields missing unknown
    mem_text map_get required_string text_eq string_value bool_value
interaction-ok i h = rw h refl

-- Every value of the map that strings make is a string.
abbrev IsString : Text × Json → Type 0
IsString e = string_value (some e.1) ≡ ok tt

strings_put :
    (m : List (Text × Json)) (k v : Text) → All IsString m → All IsString (map_put m k (str v))
unfolding map_put string_value
strings_put [] k v h = (refl, tt)
strings_put ((l, w) ∷ m) k v (h, hs) = elim (Bool-cases (text_eq l k)) [
  | inl e ↦ rw (map_put, e) (refl, hs)
  | inr e ↦ rw (map_put, e) (h, strings_put m k v hs)
]

strings_add :
    (l : List (Text × Text)) (m : List (Text × Json))
    → All IsString m
    → All IsString (add_fields (string_fields l) m)
unfolding add_fields string_fields
strings_add [] m h = h
strings_add ((k, v) ∷ l) m h = strings_add l (map_put m k (str v)) (strings_put m k v h)

solution-ok : (s : Solution) → IsWireSolution s → validate_solution (encode_solution s) ≡ ok tt
unfolding validate_solution encode_solution object array add_fields map_put fields missing unknown
    mem_text map_get text_eq number_value
solution-ok s (distinct, trades, interactions) =
    let ps =
      each-ok (λ (e : Text × Json). string_value (some e.1))
        (map_of (string_fields (sort_entries s.prices)))
        (strings_add (sort_entries s.prices) [] tt) in
    let ts =
      encoded-ok encode_trade validate_trade s.trades
        (All-map _ _ (λ t h. trade-ok t h) s.trades trades) in
    let is =
      encoded-ok encode_interaction validate_interaction s.interactions
        (All-map _ _ (λ i h. interaction-ok i h) s.interactions interactions) in
    elim (gas-cases s.gas) [ inl e ↦ rw (e, ps, ts, is) refl | inr e ↦ rw (e, ps, ts, is) refl ]

-- A nil slice of solutions is `null`, which the contract refuses.
pub encode_response-nil :
    validate_solve_response_json (some (encode_response none)) ≡ err expected_array
unfolding validate_solve_response_json encode_response encode_slice object array add_fields map_put
    fields missing unknown mem_text map_get text_eq
encode_response-nil =
    let u = validate_unique_json-unique (encode_response none) in
    let passes : validate_unique_json (some (encode_response none)) ≡ ok tt = rw nil-unique at u in
    rw passes refl

-- The response of solutions that fit the contract passes the check that guards the reply: its keys
-- are unique, and its shape is the one expected.
pub encode_response-valid :
    (solutions : List Solution)
    → All IsWireSolution solutions
    → validate_solve_response_json (some (encode_response (some solutions))) ≡ ok tt
unfolding validate_solve_response_json encode_response encode_slice object array add_fields map_put
    fields missing unknown mem_text map_get text_eq
encode_response-valid solutions wire =
    let u = validate_unique_json-unique (encode_response (some solutions)) in
    let unique_response = response-unique solutions (All-map _ _ (λ s w. w.0) solutions wire) in
    let ss =
      encoded-ok encode_solution validate_solution solutions
        (All-map _ _ (λ s w. solution-ok s w) solutions wire) in
    let passes : validate_unique_json (some (encode_response (some solutions))) ≡ ok tt =
      rw unique_response at u in
    rw (passes, ss) refl
