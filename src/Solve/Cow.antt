-- ===== src/Solve/Cow.antt =====
-- internal/solve/solve.go: matches between two opposite orders, without liquidity.
pub mod Limits
pub mod Source
use aladdin_solver_engine.Prelude.{
  Bool, List, Option, Text, [], false, if◌then◌else◌, leb_ℤ, ltb_ℤ, negative, non_positive, none,
  not, pos, show_int, some, text_eq, text_ltb, to_lower, true, ℕ, ℤ, ◌&&◌, ◌*ℤ◌, ◌++◌, ◌+ℤ◌, ◌-ℤ◌,
  ◌||◌, ◌∷◌,
}
use aladdin_solver_engine.Solve.Context.{Context, Timed, done, fold_timed, go_on, poll}
use aladdin_solver_engine.Solve.Order.{Order, Solution, amounts_of, sell_kind}
use aladdin_solver_engine.Solve.Profit.{Tokens, amount_or_zero, to_native}
use aladdin_solver_engine.Solve.RouteOrder.{trade_of}

pub record Match : Type 0 where
  pub a : Order
  pub b : Order
  pub sell_a : ℤ
  pub sell_b : ℤ

-- A bucket's key: the sold token and the bought one, in lower case.
pub record Key : Type 0 where
  pub sell : Text
  pub buy : Text

abbrev pub Buckets : Type 0
Buckets = List (Key × List Order)

unfoldable pub key_eq : Key → Key → Bool
key_eq k l = text_eq k.sell l.sell && text_eq k.buy l.buy

-- `bucket[pair]`; a missing key has no orders.
unfoldable pub orders_at : Buckets → Key → List Order
orders_at [] key = []
orders_at ((k, orders) ∷ rest) key = if key_eq k key then orders else orders_at rest key

-- `bucket[pair] = append(bucket[pair], order)`.
unfoldable pub add_order : Buckets → Key → Order → Buckets
add_order [] key order = (key, order ∷ []) ∷ []
add_order ((k, orders) ∷ rest) key order =
    let rest' = add_order rest key order in
    if key_eq k key then (k, orders ++ (order ∷ [])) ∷ rest else (k, orders) ∷ rest'

-- The loop that fills the buckets, over the sell orders.
unfoldable pub fill_bucket : Order → Buckets → Context → Timed Buckets
fill_bucket order buckets ctx = go_on (poll ctx) λ _ ctx1. elim (text_eq order.kind sell_kind) [
  | false ↦ some (buckets, ctx1)
  | true ↦ some (
    add_order buckets (record { sell = to_lower order.sell_token; buy = to_lower order.buy_token })
        order,
    ctx1,
  )
]

-- The order of the keys: by the sold token, then by the bought one.
unfoldable pub key_before : Key → Key → Bool
key_before k l =
    if not (text_eq k.sell l.sell) then text_ltb k.sell l.sell else text_ltb k.buy l.buy

unfoldable pub insert_key : Key → List Key → List Key
insert_key key [] = key ∷ []
insert_key key (k ∷ ks) =
    let ks' = insert_key key ks in if key_before key k then key ∷ k ∷ ks else k ∷ ks'

-- `sort.Slice` on the keys of the buckets, which differ.
unfoldable pub sorted_keys : Buckets → List Key
sorted_keys [] = []
sorted_keys ((key, orders) ∷ rest) = insert_key key (sorted_keys rest)

-- The matches so far, and the orders that are in one of them.
pub record Matched : Type 0 where
  pub out : List Match
  pub used : List Text

unfoldable pub is_used : Text → List Text → Bool
is_used uid [] = false
is_used uid (u ∷ us) = text_eq uid u || is_used uid us

-- A loop that returns what it has when the context is done: then no context is left.
abbrev pub Walked : Type 0
Walked = Matched × Option Context

-- What follows a loop, unless that has returned.
abbrev pub walk_on : Walked → (Matched → Context → Walked) → Walked
walk_on (s, none) f = (s, none)
walk_on (s, some ctx) f = f s ctx

unfoldable pub crosses : ℤ → ℤ → ℤ → ℤ → Bool
crosses sell_a buy_a sell_b buy_b = leb_ℤ buy_a sell_b && leb_ℤ buy_b sell_a

abbrev pub add_match : Matched → Match → Matched
add_match s m = record { out = s.out ++ (m ∷ []); used = m.a.uid ∷ m.b.uid ∷ s.used }

-- The innermost loop: the first order that crosses the given one.
unfoldable pub find_partner : Order → ℤ → ℤ → List Order → Matched → Context → Walked
find_partner a sell_a buy_a [] s ctx = (s, some ctx)
find_partner a sell_a buy_a (b ∷ rest) s ctx = elim (poll ctx) [
  | none ↦ (s, none)
  | some (_, ctx1) ↦ elim (is_used b.uid s.used) [
    | true ↦ find_partner a sell_a buy_a rest s ctx1
    | false ↦ elim (amounts_of b) [
      | none ↦ find_partner a sell_a buy_a rest s ctx1
      | some (sell_b, buy_b) ↦ elim (crosses sell_a buy_a sell_b buy_b) [
        | false ↦ find_partner a sell_a buy_a rest s ctx1
        | true ↦
            (add_match s (record { a = a; b = b; sell_a = sell_a; sell_b = sell_b }), some ctx1)
      ]
    ]
  ]
]

-- The loop over the orders of a bucket.
unfoldable pub match_orders : List Order → List Order → Matched → Context → Walked
match_orders others [] s ctx = (s, some ctx)
match_orders others (a ∷ rest) s ctx = elim (poll ctx) [
  | none ↦ (s, none)
  | some (_, ctx1) ↦ elim (is_used a.uid s.used) [
    | true ↦ match_orders others rest s ctx1
    | false ↦ elim (amounts_of a) [
      | none ↦ match_orders others rest s ctx1
      | some (sell_a, buy_a) ↦
          walk_on (find_partner a sell_a buy_a others s ctx1) (match_orders others rest)
    ]
  ]
]

-- The loop over the keys; of two opposite keys the smaller leads.
unfoldable pub match_keys : Buckets → List Key → Matched → Context → Walked
match_keys buckets [] s ctx = (s, some ctx)
match_keys buckets (key ∷ rest) s ctx = elim (poll ctx) [
  | none ↦ (s, none)
  | some (_, ctx1) ↦ elim (text_ltb key.buy key.sell) [
    | true ↦ match_keys buckets rest s ctx1
    | false ↦
        walk_on
          (match_orders (orders_at buckets (record { sell = key.buy; buy = key.sell }))
            (orders_at buckets key) s ctx1)
          (match_keys buckets rest)
  ]
]

abbrev pub nothing_matched : Matched
nothing_matched = record { out = []; used = [] }

-- `findCoWMatchesContext`, with the context that is left.
unfoldable pub find_matches : List Order → Context → List Match × Context
find_matches orders ctx = elim (fold_timed fill_bucket orders [] ctx) [
  | none ↦ ([], done)
  | some (buckets, ctx1) ↦
      let (s, left) = match_keys buckets (sorted_keys buckets) nothing_matched ctx1 in
      (s.out, elim left [ none ↦ done | some c ↦ c ])
]

abbrev pub find_cow_matches : List Order → Context → List Match
find_cow_matches orders ctx = (find_matches orders ctx).0

unfoldable pub match_solution : Match → ℕ → ℕ → Solution
match_solution m id gas = record {
  id = id;
  prices =
      (to_lower m.a.sell_token, show_int m.sell_b)
      ∷ (to_lower m.a.buy_token, show_int m.sell_a)
      ∷ [];
  trades = trade_of m.a.uid m.sell_a ∷ trade_of m.b.uid m.sell_b ∷ [];
  interactions = [];
  gas = gas;
}

unfoldable pub cow_profitable : Match → ℕ → ℤ → Tokens → Bool
cow_profitable m gas gas_price tokens =
    let surplus_a = m.sell_b -ℤ amount_or_zero m.a.buy_amount in
    let surplus_b = m.sell_a -ℤ amount_or_zero m.b.buy_amount in
    if negative surplus_a || negative surplus_b
    then false
    else elim (to_native surplus_a m.a.buy_token tokens) [
      | none ↦ not (non_positive surplus_a) || not (non_positive surplus_b)
      | some value_a ↦ elim (to_native surplus_b m.b.buy_token tokens) [
        | none ↦ not (non_positive surplus_a) || not (non_positive surplus_b)
        | some value_b ↦ ltb_ℤ (pos gas *ℤ gas_price) (value_a +ℤ value_b)
      ]
    ]
