-- ===== src/Api/Encode/Distinct.antt =====
-- internal/api/types.go: the keys of the objects in a response are unique.
use aladdin_solver_engine.Prelude.{
  All, All-map, Bool, Bool-cases, List, Text, [], all_distinct, ap, arith, codes, false, inl, inr,
  keys, mem_text, none, not, or_false_left, or_false_right, refl, show_nat, some, text_eq,
  text_eq_iff, text_ltb, true, ℕ, ◌&&◌, ◌||◌, ◌∙◌, ◌∷◌, ◌≡◌, ◌⊎◌,
}
use aladdin_solver_engine.Json.{Json, field, no_fields, num, str}
use aladdin_solver_engine.Json.Walk.Unique.{unique, unique_fields, unique_items}
use aladdin_solver_engine.Solve.Order.{Interaction, Solution, Trade}
use aladdin_solver_engine.Api.Encode.{
  encode_interaction, encode_items, encode_response, encode_slice, encode_solution, encode_trade,
  insert_entry, sort_entries, string_fields, unless_empty, unless_zero,
}

text_eq_comm : (a b : Text) → text_eq a b ≡ text_eq b a
unfolding text_eq
text_eq_comm a b = ground (arith, text_eq_iff a b, text_eq_iff b a)

mem-insert_entry :
    (x k v : Text) (l : List (Text × Text))
    → mem_text x (keys (insert_entry (k, v) l)) ≡ (text_eq x k || mem_text x (keys l))
unfolding insert_entry mem_text
mem-insert_entry x k v [] = refl
mem-insert_entry x k v ((m, w) ∷ l) = ground (arith, mem-insert_entry x k v l)

apart : (a b : Bool) → (a || b) ≡ false → (a ≡ false) × (b ≡ false)
apart a b h = (or_false_left a b h, or_false_right a b h)

neither : (a b : Bool) → a ≡ false → b ≡ false → (a || b) ≡ false
neither a b h k = rw (h, k) refl

split : (a b : Bool) → (not a && b) ≡ true → (a ≡ false) × (b ≡ true)
split a b h = ground arith

distinct-insert_entry :
    (k v : Text) (l : List (Text × Text))
    → mem_text k (keys l) ≡ false
    → all_distinct (keys l) ≡ true
    → all_distinct (keys (insert_entry (k, v) l)) ≡ true
unfolding insert_entry mem_text all_distinct
distinct-insert_entry k v [] h d = refl
distinct-insert_entry k v ((m, w) ∷ l) h d = elim (Bool-cases (text_ltb m k)) [
  | inr after ↦ rw (insert_entry, after, h) d
  | inl earlier ↦
      let (differ, fresh) = apart (text_eq k m) (mem_text k (keys l)) h in
      let (own, rest) = split (mem_text m (keys l)) (all_distinct (keys l)) d in
      let away : mem_text m (keys (insert_entry (k, v) l)) ≡ false =
        mem-insert_entry m k v l ∙ neither _ _ (text_eq_comm m k ∙ differ) own in
      rw (insert_entry, earlier, away, distinct-insert_entry k v l fresh rest) refl
]

mem-sort_entries :
    (x : Text) (l : List (Text × Text)) → mem_text x (keys (sort_entries l)) ≡ mem_text x (keys l)
unfolding sort_entries mem_text
mem-sort_entries x [] = refl
mem-sort_entries x ((k, v) ∷ l) =
    mem-insert_entry x k v (sort_entries l) ∙ ap (λ b. text_eq x k || b) (mem-sort_entries x l)

distinct-sort_entries :
    (l : List (Text × Text))
    → all_distinct (keys l) ≡ true
    → all_distinct (keys (sort_entries l)) ≡ true
unfolding sort_entries all_distinct
distinct-sort_entries [] h = refl
distinct-sort_entries ((k, v) ∷ l) h =
    let fresh : mem_text k (keys l) ≡ false = ground arith in
    let rest : all_distinct (keys l) ≡ true = ground arith in
    distinct-insert_entry k v (sort_entries l) (mem-sort_entries k l ∙ fresh)
      (distinct-sort_entries l rest)

-- None of the keys is among those before.
fresh_after :
    (k : Text) (seen ks : List Text)
    → mem_text k ks ≡ false
    → All (λ x. mem_text x seen ≡ false) ks
    → All (λ x. mem_text x (k ∷ seen) ≡ false) ks
unfolding mem_text
fresh_after k seen [] h a = tt
fresh_after k seen (x ∷ ks) h (a, as') =
    (ground (arith, text_eq_comm k x), fresh_after k seen ks (ground arith) as')

unique-string_fields :
    (seen : List Text) (l : List (Text × Text))
    → All (λ x. mem_text x seen ≡ false) (keys l)
    → all_distinct (keys l) ≡ true
    → unique_fields seen (string_fields l) ≡ true
unfolding string_fields unique all_distinct
unique-string_fields seen [] a d = refl
unique-string_fields seen ((k, v) ∷ l) (a, as') d =
    let fresh : mem_text k (keys l) ≡ false = ground arith in
    let rest : all_distinct (keys l) ≡ true = ground arith in
    rw (a, unique-string_fields (k ∷ seen) l (fresh_after k seen (keys l) fresh as') rest) refl

unseen : (ks : List Text) → All (λ x. mem_text x [] ≡ false) ks
unfolding mem_text
unseen [] = tt
unseen (k ∷ ks) = (refl, unseen ks)

-- The fee is there or not.
pub fee-cases :
    (fee : Text)
    → (unless_empty (codes "fee") fee ≡ no_fields)
      ⊎ (unless_empty (codes "fee") fee ≡ field (codes "fee") (str fee) no_fields)
unfolding unless_empty
fee-cases [] = inl refl
fee-cases (c ∷ cs) = inr refl

pub gas-cases :
    (gas : ℕ)
    → (unless_zero (codes "gas") gas ≡ no_fields)
      ⊎ (unless_zero (codes "gas") gas ≡ field (codes "gas") (num (show_nat gas)) no_fields)
unfolding unless_zero
gas-cases gas = ground arith

unique-encode_items :
    {A : Type 0} (f : A → Json) (xs : List A)
    → All (λ x. unique (f x) ≡ true) xs
    → unique_items (encode_items f xs) ≡ true
unfolding unique encode_items
unique-encode_items f [] h = refl
unique-encode_items f (x ∷ xs) (h, hs) = rw (h, unique-encode_items f xs hs) refl

trade-unique : (t : Trade) → unique (encode_trade t) ≡ true
unfolding unique encode_trade mem_text text_eq
trade-unique t = elim (fee-cases t.fee) [ inl e ↦ rw e refl | inr e ↦ rw e refl ]

interaction-unique : (i : Interaction) → unique (encode_interaction i) ≡ true
unfolding unique encode_interaction mem_text text_eq
interaction-unique i = refl

every : {A : Type 0} {P : A → Type 0} → ((x : A) → P x) → (xs : List A) → All P xs
every f [] = tt
every f (x ∷ xs) = (f x, every f xs)

solution-unique :
    (s : Solution) → all_distinct (keys s.prices) ≡ true → unique (encode_solution s) ≡ true
unfolding unique encode_solution mem_text text_eq
solution-unique s d =
    let ps =
      unique-string_fields [] (sort_entries s.prices) (unseen (keys (sort_entries s.prices)))
        (distinct-sort_entries s.prices d) in
    let ts = unique-encode_items encode_trade s.trades (every trade-unique s.trades) in
    let is =
      unique-encode_items encode_interaction s.interactions
        (every interaction-unique s.interactions) in
    elim (gas-cases s.gas) [ inl e ↦ rw (e, ps, ts, is) refl | inr e ↦ rw (e, ps, ts, is) refl ]

pub response-unique :
    (solutions : List Solution)
    → All (λ s. all_distinct (keys (Solution.prices s)) ≡ true) solutions
    → unique (encode_response (some solutions)) ≡ true
unfolding unique encode_response encode_slice mem_text text_eq
response-unique solutions h =
    rw
      (unique-encode_items encode_solution solutions
        (All-map _ _ (λ s d. solution-unique s d) solutions h))
      refl

pub nil-unique : unique (encode_response none) ≡ true
unfolding unique encode_response encode_slice mem_text text_eq
nil-unique = refl
