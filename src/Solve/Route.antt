-- ===== src/Solve/Route.antt =====
-- internal/solve/route.go: the graph of the pools and the best route through it.
pub mod Best
pub mod Candidates
pub mod Optimal
pub mod Deadline
use aladdin_solver_engine.Prelude.{
  Bool, List, Option, Text, [], eqb_ℤ, err, false, if◌then◌else◌, leb, length, ltb, ltb_ℤ,
  non_positive, none, not, ok, some, take, text_eq, text_ltb, to_lower, true, ℕ, ℤ, ◌++◌, ◌+◌, ◌==◌,
  ◌||◌, ◌∷◌,
}
use aladdin_solver_engine.Amm.Pool.{Pool, all_tokens, supports}
use aladdin_solver_engine.Amm.Quote.{quote_exact_in_pair}
use aladdin_solver_engine.Solve.Context.{Context, Timed, fold_timed, go_on, poll}
use aladdin_solver_engine.Solve.Gas.{sum_gas}

-- A `*amm.Pool`: the pool and the address by which pointers are compared.
pub record Ref : Type 0 where
  pub address : ℕ
  pub pool : Pool

pub record Hop : Type 0 where
  pub pool : Pool
  pub token_in : Text
  pub token_out : Text
  pub amount_in : ℤ
  pub out : ℤ

pub record Route : Type 0 where
  pub hops : List Hop
  pub out : ℤ
  pub gas : ℕ

pub record Graph : Type 0 where
  pub by_token : List (Text × List Ref)
  pub intermediates : List Text

abbrev pub max_intermediates : ℕ
max_intermediates = 12

abbrev pub max_pools_per_token : ℕ
max_pools_per_token = 24

-- `byToken[token]`; a missing key has no pools.
unfoldable pub pools_of : List (Text × List Ref) → Text → List Ref
pools_of [] token = []
pools_of ((key, pools) ∷ rest) token = if text_eq key token then pools else pools_of rest token

-- `graph.byToken[token] = append(graph.byToken[token], pool)`.
unfoldable pub add_entry : List (Text × List Ref) → Text → Ref → List (Text × List Ref)
add_entry [] token ref = (token, ref ∷ []) ∷ []
add_entry ((key, pools) ∷ rest) token ref =
    let rest' = add_entry rest token ref in
    if text_eq key token then (key, pools ++ (ref ∷ [])) ∷ rest else (key, pools) ∷ rest'

-- The inner loop of `NewGraph`.
unfoldable pub add_tokens : List Text → Ref → List (Text × List Ref) → List (Text × List Ref)
add_tokens [] ref index = index
add_tokens (token ∷ rest) ref index = add_tokens rest ref (add_entry index (to_lower token) ref)

-- Its outer loop, over pools that stand at the addresses from the given one on.
unfoldable pub index_pools : ℕ → List Pool → List (Text × List Ref) → List (Text × List Ref)
index_pools address [] index = index
index_pools address (pool ∷ rest) index =
    index_pools (address + 1) rest
      (add_tokens (all_tokens pool) (record { address = address; pool = pool }) index)

-- The order of `sort.Slice`. The count of a token is the number of its entries.
unfoldable pub before : List (Text × List Ref) → Text → Text → Bool
before index left right =
    let l = length (pools_of index left) in
    let r = length (pools_of index right) in if not (l == r) then ltb r l else text_ltb left right

insert_token : List (Text × List Ref) → Text → List Text → List Text
insert_token index token [] = token ∷ []
insert_token index token (t ∷ ts) =
    let ts' = insert_token index token ts in
    if before index token t then token ∷ t ∷ ts else t ∷ ts'

-- `sort.Slice`: the order is strict on different tokens, so any sort gives this list.
unfoldable pub sort_tokens : List (Text × List Ref) → List Text → List Text
unfolding insert_token
sort_tokens index [] = []
sort_tokens index (t ∷ ts) = insert_token index t (sort_tokens index ts)

-- The tokens that two entries at least refer to.
unfoldable pub connected : List (Text × List Ref) → List Text
connected [] = []
connected ((key, pools) ∷ rest) =
    if leb 2 (length pools) then key ∷ connected rest else connected rest

unfoldable pub new_graph : List Pool → Graph
new_graph pools =
    let index = index_pools 0 pools [] in
    record {
      by_token = index;
      intermediates = take max_intermediates (sort_tokens index (connected index));
    }

unfoldable pub pools_for : Graph → Text → List Ref
pools_for g token = take max_pools_per_token (pools_of g.by_token token)

unfoldable pub hop_key : Hop → Text
hop_key hop = hop.pool.kind ++ (0 ∷ hop.pool.id) ++ (0 ∷ hop.token_in) ++ (0 ∷ hop.token_out)

unfoldable pub route_key : List Hop → Text
route_key [] = []
route_key (hop ∷ rest) = hop_key hop ++ (0 ∷ route_key rest)

-- `better` of two routes that are not nil: the larger output, then the less gas, then the key.
unfoldable pub better_of : Route → Route → Route
better_of a b =
    if not (eqb_ℤ b.out a.out)
    then (if ltb_ℤ a.out b.out then b else a)
    else if not (b.gas == a.gas)
    then (if ltb b.gas a.gas then b else a)
    else if text_ltb (route_key b.hops) (route_key a.hops)
    then b
    else a

unfoldable pub better : Option Route → Option Route → Option Route
better none b = b
better (some a) none = some a
better (some a) (some b) = some (better_of a b)

abbrev pub one_hop : Pool → Text → Text → ℤ → ℤ → Route
one_hop pool sell buy amount_in out = record {
  hops =
      record { pool = pool; token_in = sell; token_out = buy; amount_in = amount_in; out = out }
      ∷ [];
  out = out;
  gas = pool.gas_estimate;
}

-- One round of the loop over the pools of the sold token.
unfoldable pub try_direct : Text → Text → ℤ → Ref → Option Route → Context → Timed (Option Route)
try_direct sell buy amount_in ref best ctx = go_on (poll ctx) λ _ ctx1.
    elim (supports ref.pool sell buy) [
      | false ↦ some (best, ctx1)
      | true ↦ elim (quote_exact_in_pair ref.pool sell buy amount_in) [
        | err e ↦ some (best, ctx1)
        | ok out ↦
            go_on (poll ctx1)
              λ _ ctx2. some (better best (some (one_hop ref.pool sell buy amount_in out)), ctx2)
      ]
    ]

abbrev pub two_hops : Pool → Pool → Text → Text → Text → ℤ → ℤ → ℤ → ℕ → Route
two_hops first second sell mid buy amount_in mid_amount out gas = record {
  hops =
      record {
        pool = first;
        token_in = sell;
        token_out = mid;
        amount_in = amount_in;
        out = mid_amount;
      }
      ∷ record { pool = second; token_in = mid; token_out = buy; amount_in = mid_amount; out = out }
      ∷ [];
  out = out;
  gas = gas;
}

-- One round of the innermost loop, over the second pool.
unfoldable pub try_second :
    Text → Text → Text → ℤ → Ref → ℤ → Ref → Option Route → Context → Timed (Option Route)
try_second sell mid buy amount_in first mid_amount second best ctx = go_on (poll ctx) λ _ ctx1.
    elim ((second.address == first.address) || not (supports second.pool mid buy)) [
      | true ↦ some (best, ctx1)
      | false ↦ elim (quote_exact_in_pair second.pool mid buy mid_amount) [
        | err e ↦ some (best, ctx1)
        | ok out ↦ go_on (poll ctx1) λ _ ctx2.
            elim (sum_gas (first.pool.gas_estimate ∷ second.pool.gas_estimate ∷ [])) [
              | none ↦ some (best, ctx2)
              | some gas ↦ some (
                better best (
                    some
                      (two_hops first.pool second.pool sell mid buy amount_in mid_amount out gas)),
                ctx2,
              )
            ]
      ]
    ]

-- One round of the loop over the first pool.
unfoldable pub try_first :
    Graph → Text → Text → Text → ℤ → Ref → Option Route → Context → Timed (Option Route)
try_first g sell mid buy amount_in first best ctx = go_on (poll ctx) λ _ ctx1.
    elim (supports first.pool sell mid) [
      | false ↦ some (best, ctx1)
      | true ↦ elim (quote_exact_in_pair first.pool sell mid amount_in) [
        | err e ↦ some (best, ctx1)
        | ok mid_amount ↦
            fold_timed (try_second sell mid buy amount_in first mid_amount) (pools_for g mid) best
              ctx1
      ]
    ]

-- One round of the loop over the tokens between.
unfoldable pub try_mid :
    Graph → Text → Text → ℤ → Text → Option Route → Context → Timed (Option Route)
try_mid g sell buy amount_in mid best ctx = go_on (poll ctx) λ _ ctx1.
    elim (text_eq mid sell || text_eq mid buy) [
      | true ↦ some (best, ctx1)
      | false ↦ fold_timed (try_first g sell mid buy amount_in) (pools_for g sell) best ctx1
    ]

-- The search between the first and the last look at the context, over tokens in lower case.
unfoldable pub search_routes : Graph → Text → Text → ℤ → Context → Timed (Option Route)
search_routes g sell buy amount_in ctx =
    go_on (fold_timed (try_direct sell buy amount_in) (pools_for g sell) none ctx) λ direct ctx1.
      go_on (fold_timed (try_mid g sell buy amount_in) g.intermediates direct ctx1)
        λ best ctx2. go_on (poll ctx2) λ _ ctx3. some (best, ctx3)

-- `BestRouteContext`, of an amount that is not nil; giving up is its error.
unfoldable pub best_route : Graph → Text → Text → ℤ → Context → Timed (Option Route)
best_route g sell_token buy_token amount_in ctx = go_on (poll ctx) λ _ ctx1.
    let sell = to_lower sell_token in
    let buy = to_lower buy_token in
    elim (text_eq sell buy || non_positive amount_in) [
      | true ↦ some (none, ctx1)
      | false ↦ search_routes g sell buy amount_in ctx1
    ]
