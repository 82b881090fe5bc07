-- ===== src/Solve/Pools.antt =====
-- internal/solve/pools.go: the pools that liquidity sources describe.
pub mod Count
pub mod Fees
use aladdin_solver_engine.Prelude.{
  Bool, List, Option, Result, Text, [], abs, bit_len_exceeds, codes, eqb_ℤ, err, fail_if, false,
  if◌then◌else◌, index_out_of_range, is_empty, leb_ℤ, length, ltb, ltb_ℤ, map_get, map_put, neg_ℤ,
  negative, non_positive, none, not, ok, or_fail, pos, quo, skipped, some, take, text_eq, to_lower,
  trim_space, true, ℕ, ℤ, ◌&&◌, ◌*ℤ◌, ◌++◌, ◌+◌, ◌-◌, ◌==◌, ◌>>=◌, ◌>>◌, ◌^◌, ◌||◌, ◌∷◌,
}
use aladdin_solver_engine.Amm.Decimal.{parse_decimal_rational}
use aladdin_solver_engine.Amm.Pool.{
  Pool, Tick, concentrated_kind, constant_product_kind, stable_kind, tokens,
}
use aladdin_solver_engine.Amm.TickMath.{max_tick}
use aladdin_solver_engine.Solve.Context.{Context, done, poll}
use aladdin_solver_engine.Solve.Liquidity.{
  Liquidity, Reserve, addresses_of, decimal_digits, decode_reserves, decode_string_array,
  not_a_decimal, parse_int32, parse_positive_unsigned, parse_signed_integer, parse_uint64,
  reserve_at,
}

abbrev pub max_stable_pool_tokens : ℕ
max_stable_pool_tokens = 64

abbrev pub max_concentrated_ticks : ℕ
max_concentrated_ticks = 16_384

-- A value, or the source's `errSkip`.
abbrev pub or_skip {ℓ} : {A : Type ℓ} → Option A → Result A
or_skip none = err skipped
or_skip (some a) = ok a

-- The fee: a fraction of at least 0 and below 1 whose parts have 256 bits.
unfoldable pub parse_fee : Text → Result (ℤ × ℤ)
parse_fee raw = do
  let trimmed = trim_space raw
  fail_if (not_a_decimal trimmed) skipped
  (top, bottom) ← or_fail (parse_decimal_rational trimmed) skipped
  fail_if
      (non_positive bottom
        || negative top
        || leb_ℤ bottom top
        || bit_len_exceeds top 256
        || bit_len_exceeds bottom 256)
      skipped
  ok (top, bottom)

-- The gas; a zero is the default.
unfoldable pub parse_gas : Text → Result ℕ
parse_gas raw = do
  fail_if (not (decimal_digits raw 20)) skipped
  gas ← or_skip (parse_uint64 raw)
  ok (if gas == 0 then 90_000 else gas)

-- `base`: the pool before its tokens.
abbrev pub base_pool : Liquidity → ℕ → ℤ → ℤ → Pool
base_pool l gas top bottom = record {
  id = l.id;
  kind = l.kind;
  address = to_lower l.address;
  gas_estimate = gas;
  token_a = [];
  token_b = [];
  reserve_a = none;
  reserve_b = none;
  fee_num = some top;
  fee_den = some bottom;
  sqrt_price_x96 = none;
  liquidity = none;
  tick = pos 0;
  ticks = [];
  token_list = [];
  balances = [];
  scaling_factors = [];
  amplification_raw = none;
}

abbrev pub balance_at : List (Text × Reserve) → Text → Text
balance_at tokens address = elim (reserve_at tokens address) [
  | none ↦ codes "0"
  | some reserve ↦ reserve.balance
]

-- The two addresses of a pool.
abbrev pub two_addresses : List Text → Result (Text × Text)
two_addresses (a ∷ b ∷ []) = ok (a, b)
two_addresses _ = err skipped

unfoldable pub build_constant_product : Liquidity → Pool → Result Pool
build_constant_product l base = do
  tokens ← decode_reserves false l.tokens
  fail_if (not (length tokens == 2)) skipped
  addresses ← or_skip (addresses_of tokens)
  (a, b) ← two_addresses addresses
  reserve_a ← or_skip (parse_positive_unsigned (balance_at tokens a) 256)
  reserve_b ← or_skip (parse_positive_unsigned (balance_at tokens b) 256)
  ok (record base {
    token_a = a;
    token_b = b;
    reserve_a = some reserve_a;
    reserve_b = some reserve_b;
  })

abbrev out_of_ticks : ℤ → Bool
out_of_ticks index = ltb_ℤ index (neg_ℤ (pos max_tick)) || ltb_ℤ (pos max_tick) index

-- `seenTicks`.
unfoldable pub has_tick : ℤ → List Tick → Bool
has_tick index [] = false
has_tick index (t ∷ ts) = eqb_ℤ t.index index || has_tick index ts

-- The loop over the map of ticks, over those read so far.
unfoldable pub parse_ticks : List (Text × Text) → List Tick → Result (List Tick)
parse_ticks [] ticks = ok ticks
parse_ticks ((raw_index, raw_net) ∷ rest) ticks = do
  index ← or_skip (parse_int32 raw_index)
  fail_if (out_of_ticks index || has_tick index ticks) skipped
  net ← or_skip (parse_signed_integer raw_net 128)
  parse_ticks rest (ticks ++ (record { index = index; net = net } ∷ []))

unfoldable pub insert_tick : Tick → List Tick → List Tick
insert_tick t [] = t ∷ []
insert_tick t (u ∷ us) =
    let us' = insert_tick t us in if ltb_ℤ u.index t.index then u ∷ us' else t ∷ u ∷ us

-- `amm.SortTicks`, of ticks whose indices differ.
unfoldable pub sort_ticks : List Tick → List Tick
sort_ticks [] = []
sort_ticks (t ∷ ts) = insert_tick t (sort_ticks ts)

unfoldable pub build_concentrated : Liquidity → Pool → Result Pool
build_concentrated l base = do
  tokens ← or_fail (decode_string_array l.tokens) skipped
  (raw_a, raw_b) ← two_addresses tokens
  let a = to_lower raw_a
  let b = to_lower raw_b
  fail_if (text_eq a b || ltb max_concentrated_ticks (length l.liquidity_net)) skipped
  sqrt_price ← or_skip (parse_positive_unsigned l.sqrt_price 256)
  liquidity ← or_skip (parse_positive_unsigned l.liquidity 128)
  tick ← or_skip l.tick
  fail_if (out_of_ticks tick) skipped
  ticks ← parse_ticks l.liquidity_net []
  ok (record base {
    token_a = a;
    token_b = b;
    sqrt_price_x96 = some sqrt_price;
    liquidity = some liquidity;
    tick = tick;
    ticks = sort_ticks ticks;
  })

-- A decimal text that must be positive, times the scale, rounded down; it must be positive and have
-- 256 bits.
unfoldable pub parse_scaled : Text → ℤ → Result ℤ
parse_scaled raw scale = do
  let trimmed = trim_space raw
  fail_if (not_a_decimal trimmed) skipped
  (top, bottom) ← or_fail (parse_decimal_rational trimmed) skipped
  fail_if (non_positive top || non_positive bottom) skipped
  let scaled = quo (top *ℤ scale) bottom
  fail_if (non_positive scaled || bit_len_exceeds scaled 256) skipped
  ok scaled

abbrev scaling_one : ℤ
scaling_one = pos (10 ^ 18)

abbrev reserve_or_empty : List (Text × Reserve) → Text → Reserve
reserve_or_empty tokens address = elim (reserve_at tokens address) [
  | none ↦ record { balance = []; scaling_factor = [] }
  | some reserve ↦ reserve
]

-- The loop over the addresses of a stable pool: the balances and the scaling factors.
unfoldable pub parse_reserves :
    List (Text × Reserve) → List Text → Result (List (Option ℤ) × List (Option ℤ))
parse_reserves tokens [] = ok ([], [])
parse_reserves tokens (address ∷ rest) = do
  let raw = reserve_or_empty tokens address
  balance ← or_skip (parse_positive_unsigned raw.balance 256)
  factor ← parse_scaled raw.scaling_factor scaling_one
  (balances, factors) ← parse_reserves tokens rest
  ok (some balance ∷ balances, some factor ∷ factors)

-- The first two addresses of a list that has two at least.
abbrev pub first_two : List Text → Result (Text × Text)
first_two (a ∷ b ∷ rest) = ok (a, b)
first_two _ = err index_out_of_range

unfoldable pub build_stable : Liquidity → Pool → Result Pool
build_stable l base = do
  tokens ← or_fail (decode_reserves true l.tokens) skipped
  fail_if (ltb (length tokens) 2 || ltb max_stable_pool_tokens (length tokens)) skipped
  amp ← parse_scaled l.amplification_parameter (pos 1000)
  addresses ← or_skip (addresses_of tokens)
  (balances, factors) ← parse_reserves tokens addresses
  (a, b) ← first_two addresses
  ok (record base {
    token_list = addresses;
    balances = balances;
    scaling_factors = factors;
    amplification_raw = some amp;
    token_a = a;
    token_b = b;
  })

-- The `switch` on the kind.
unfoldable pub build_kind : Liquidity → Pool → Result Pool
build_kind l base =
    if text_eq l.kind constant_product_kind
    then build_constant_product l base
    else if text_eq l.kind concentrated_kind
    then build_concentrated l base
    else if text_eq l.kind stable_kind
    then build_stable l base
    else err skipped

unfoldable pub build_pool : Liquidity → Result Pool
build_pool l = do
  (top, bottom) ← parse_fee l.fee
  gas ← parse_gas l.gas_estimate
  build_kind l (base_pool l gas top bottom)

-- The counts of what is skipped, by reason.
abbrev pub Skipped : Type 0
Skipped = List (Text × ℕ)

abbrev pub count_at : Skipped → Text → ℕ
count_at m key = elim (map_get m key) [ none ↦ 0 | some n ↦ n ]

-- `skipped[key] += n`.
unfoldable pub add_skipped : Skipped → Text → ℕ → Skipped
add_skipped m key n = map_put m key (count_at m key + n)

-- The pools and counts so far; the context that is left, if it is not done.
pub record Built : Type 0 where
  pub pools : List Pool
  pub skips : Skipped
  pub left : Context

abbrev pub skip_kind : Liquidity → Text
skip_kind l = if is_empty l.kind then codes "unknown" else l.kind

-- The loop over the sources up to the limit.
unfoldable pub build_loop : List Liquidity → List Pool → Skipped → Context → Built
build_loop [] pools skips ctx = record { pools = pools; skips = skips; left = ctx }
build_loop (l ∷ rest) pools skips ctx = elim (poll ctx) [
  | none ↦ record {
    pools = pools;
    skips = add_skipped skips (codes "cancelled") (length (l ∷ rest));
    left = done;
  }
  | some (_, ctx1) ↦ elim (build_pool l) [
    | err e ↦ build_loop rest pools (add_skipped skips (skip_kind l) 1) ctx1
    | ok pool ↦ build_loop rest (pools ++ (pool ∷ [])) skips ctx1
  ]
]

unfoldable pub build_pools : List Liquidity → ℤ → Context → Built
build_pools liquidity max_pools ctx =
    if ltb_ℤ (pos 0) max_pools && ltb_ℤ max_pools (pos (length liquidity))
    then build_loop (take (abs max_pools) liquidity) []
        (add_skipped [] (codes "resourceLimit") (length liquidity - abs max_pools)) ctx
    else build_loop liquidity [] [] ctx
