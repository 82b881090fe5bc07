-- ===== src/Json/Walk/Unique.antt =====
-- internal/contract/contract.go, walkJSONValue: what the walk over a document decides.
use mathlib.Core.List.{append_assoc}
use mathlib.Core.Path.{subst}
use aladdin_solver_engine.Prelude.{
  Bool, Bool-cases, List, Result, Text, [], ap, arith, duplicate_key, err, false, if◌then◌else◌,
  inl, inr, length, length-append, mem_text, not, ok, refl, some, suc, true, zero, ℕ, ◌&&◌, ◌*◌,
  ◌++◌, ◌+◌, ◌∙◌, ◌∷◌, ◌≡◌, ◌≤◌,
}
use aladdin_solver_engine.Json.{
  Fields, Items, Json, Token, arr, bool, field, field_tokens, item, item_tokens, no_fields,
  no_items, null, num, obj, str, text, tokens_of,
}
use aladdin_solver_engine.Json.Walk.{
  more, rounds_for, validate_unique_json, validate_unique_tokens, walk_fields, walk_items,
  walk_json_value,
}

-- No object of the value has a key twice, at any depth.
unfoldable mutual
  pub unique : Json → Bool
  unique null = true
  unique (bool b) = true
  unique (num n) = true
  unique (str s) = true
  unique (arr xs) = unique_items xs
  unique (obj fs) = unique_fields [] fs

  pub unique_items : Items → Bool
  unique_items no_items = true
  unique_items (item x xs) = unique x && unique_items xs

  -- The keys before these fields are given.
  pub unique_fields : List Text → Fields → Bool
  unique_fields seen no_fields = true
  unique_fields seen (field k v fs) =
      not (mem_text k seen) && (unique v && unique_fields (k ∷ seen) fs)

-- The rounds that the walk over a value takes at most.
unfoldable mutual
  cost : Json → ℕ
  cost null = 1
  cost (bool b) = 1
  cost (num n) = 1
  cost (str s) = 1
  cost (arr xs) = suc (cost_items xs)
  cost (obj fs) = suc (cost_fields fs)

  cost_items : Items → ℕ
  cost_items no_items = 1
  cost_items (item x xs) = suc (cost x + cost_items xs)

  cost_fields : Fields → ℕ
  cost_fields no_fields = 1
  cost_fields (field k v fs) = suc (cost v + cost_fields fs)

mutual
  unfolding cost tokens_of

  cost-le : (j : Json) → cost j + 1 ≤ 2 * length (tokens_of j)
  cost-le null = omega arith
  cost-le (bool b) = omega arith
  cost-le (num n) = omega arith
  cost-le (str s) = omega arith
  cost-le (arr xs) = omega (arith, cost_items-le xs)
  cost-le (obj fs) = omega (arith, cost_fields-le fs)

  cost_items-le : (xs : Items) → cost_items xs ≤ 2 * length (item_tokens xs)
  cost_items-le no_items = omega arith
  cost_items-le (item x xs) =
      omega (arith, cost-le x, cost_items-le xs, length-append (tokens_of x) (item_tokens xs))

  cost_fields-le : (fs : Fields) → cost_fields fs ≤ 2 * length (field_tokens fs)
  cost_fields-le no_fields = omega arith
  cost_fields-le (field k v fs) =
      omega (arith, cost-le v, cost_fields-le fs, length-append (tokens_of v) (field_tokens fs))

more-tokens_of : (j : Json) (rest : List Token) → more (tokens_of j ++ rest) ≡ true
unfolding tokens_of
more-tokens_of null rest = refl
more-tokens_of (bool b) rest = refl
more-tokens_of (num n) rest = refl
more-tokens_of (str s) rest = refl
more-tokens_of (arr xs) rest = refl
more-tokens_of (obj fs) rest = refl

-- What the walk returns where the answer of the test is given.
abbrev verdict : Bool → List Token → Result (List Token)
verdict b rest = if b then ok rest else err duplicate_key

items-step :
    (x : Json) (left : ℕ) (ts : List Token) (b : Bool)
    → walk_json_value left (tokens_of x ++ ts) ≡ verdict b ts
    → walk_items (suc left) (tokens_of x ++ ts)
      ≡ (if b then walk_items left ts else err duplicate_key)
unfolding walk_json_value
items-step x left ts true e = rw (walk_items, more-tokens_of x ts, e) refl
items-step x left ts false e = rw (walk_items, more-tokens_of x ts, e) refl

fields-step :
    (k : Text) (v : Json) (left : ℕ) (seen : List Text) (ts : List Token) (b : Bool)
    → walk_json_value left (tokens_of v ++ ts) ≡ verdict b ts
    → walk_fields (suc left) seen (text k ∷ (tokens_of v ++ ts))
      ≡ (if not (mem_text k seen) && b then walk_fields left (k ∷ seen) ts else err duplicate_key)
unfolding walk_json_value
fields-step k v left seen ts b e = ground (arith, e)

under :
    (a b : Bool) (rest : List Token) (r : Result (List Token))
    → r ≡ verdict b rest
    → (if a then r else err duplicate_key) ≡ verdict (a && b) rest
under true b rest r e = e
under false b rest r e = refl

under_both :
    (twice a b : Bool) (rest : List Token) (r : Result (List Token))
    → r ≡ verdict b rest
    → (if not twice && a then r else err duplicate_key) ≡ verdict (not twice && (a && b)) rest
under_both true a b rest r e = refl
under_both false a b rest r e = under a b rest r e

append_empty : {A : Type 0} (xs : List A) → xs ++ [] ≡ xs
append_empty [] = refl
append_empty (x ∷ xs) = ap (λ l. x ∷ l) (append_empty xs)

mutual
  unfolding walk_json_value tokens_of unique cost

  walk-verdict :
      (j : Json) (left : ℕ) (rest : List Token)
      → cost j ≤ left
      → walk_json_value left (tokens_of j ++ rest) ≡ verdict (unique j) rest
  walk-verdict null zero rest h = absurd (omega arith)
  walk-verdict null (suc left) rest h = refl
  walk-verdict (bool b) zero rest h = absurd (omega arith)
  walk-verdict (bool b) (suc left) rest h = refl
  walk-verdict (num n) zero rest h = absurd (omega arith)
  walk-verdict (num n) (suc left) rest h = refl
  walk-verdict (str s) zero rest h = absurd (omega arith)
  walk-verdict (str s) (suc left) rest h = refl
  walk-verdict (arr xs) zero rest h = absurd (omega arith)
  walk-verdict (arr xs) (suc left) rest h = walk_items-verdict xs left rest (omega arith)
  walk-verdict (obj fs) zero rest h = absurd (omega arith)
  walk-verdict (obj fs) (suc left) rest h = walk_fields-verdict fs left [] rest (omega arith)

  walk_items-verdict :
      (xs : Items) (left : ℕ) (rest : List Token)
      → cost_items xs ≤ left
      → walk_items left (item_tokens xs ++ rest) ≡ verdict (unique_items xs) rest
  walk_items-verdict no_items zero rest h = absurd (omega arith)
  walk_items-verdict no_items (suc left) rest h = refl
  walk_items-verdict (item x xs) zero rest h = absurd (omega arith)
  walk_items-verdict (item x xs) (suc left) rest h =
      rw (append_assoc (tokens_of x) (item_tokens xs) rest) (
        items-step x left (item_tokens xs ++ rest) (unique x)
          (walk-verdict x left (item_tokens xs ++ rest) (omega arith))
        ∙ under (unique x) (unique_items xs) rest _ (walk_items-verdict xs left rest (omega arith)))

  walk_fields-verdict :
      (fs : Fields) (left : ℕ) (seen : List Text) (rest : List Token)
      → cost_fields fs ≤ left
      → walk_fields left seen (field_tokens fs ++ rest) ≡ verdict (unique_fields seen fs) rest
  walk_fields-verdict no_fields zero seen rest h = absurd (omega arith)
  walk_fields-verdict no_fields (suc left) seen rest h = refl
  walk_fields-verdict (field k v fs) zero seen rest h = absurd (omega arith)
  walk_fields-verdict (field k v fs) (suc left) seen rest h =
      ap (λ ts. walk_fields (suc left) seen (text k ∷ ts))
        (append_assoc (tokens_of v) (field_tokens fs) rest)
      ∙ fields-step k v left seen (field_tokens fs ++ rest) (unique v)
          (walk-verdict v left (field_tokens fs ++ rest) (omega arith))
      ∙ under_both (mem_text k seen) (unique v) (unique_fields (k ∷ seen) fs) rest _
          (walk_fields-verdict fs left (k ∷ seen) rest (omega arith))

-- A document passes exactly if no object of it has a key twice, at any depth; else it is refused for
-- that very reason. In particular the rounds given to the walk are enough.
pub validate_unique_json-unique :
    (j : Json) → validate_unique_json (some j) ≡ (if unique j then ok tt else err duplicate_key)
unfolding validate_unique_json validate_unique_tokens
validate_unique_json-unique j =
    let w = walk-verdict j (rounds_for (tokens_of j)) [] (omega (arith, cost-le j)) in
    let w' =
      subst (λ ts. walk_json_value (rounds_for (tokens_of j)) ts ≡ verdict (unique j) [])
        (append_empty (tokens_of j)) w in
    elim (Bool-cases (unique j)) [
      | inl u ↦ let e = rw u at w' in rw (e, u) refl
      | inr u ↦ let e = rw u at w' in rw (e, u) refl
    ]
