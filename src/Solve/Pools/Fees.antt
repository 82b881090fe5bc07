-- ===== src/Solve/Pools/Fees.antt =====
-- internal/solve/pools.go: what holds of every pool that is built.
use mathlib.Core.Path.{subst}
use aladdin_solver_engine.Prelude.{
  >>=-eq-ok, Bool, Bool-cases, Text, [], bit_len_exceeds, fail_if-eq-ok, false, inl, inr, leb_ℤ,
  negative, non_positive, not, ok, ok-injective, or_fail, pos, refl, skipped, some, text_eq,
  trim_space, true, ℕ, ℤ, ◌==◌, ◌||◌, ◌≡◌,
}
use aladdin_solver_engine.Solve.Liquidity.{
  Liquidity, addresses_of, decimal_digits, decode_reserves, decode_string_array,
  parse_positive_unsigned, parse_uint64,
}
use aladdin_solver_engine.Amm.Pool.{
  Pool, concentrated_kind, constant_product_kind, stable_kind, tokens,
}
use aladdin_solver_engine.Amm.Decimal.{parse_decimal_rational}
use aladdin_solver_engine.Solve.Pools.{
  balance_at, base_pool, build_concentrated, build_constant_product, build_kind, build_pool,
  build_stable, first_two, or_skip, parse_fee, parse_gas, parse_reserves, parse_scaled, parse_ticks,
  two_addresses,
}

-- A fraction of at least 0 and below 1, of two numbers of at most 256 bits.
abbrev pub IsFee : ℤ → ℤ → Type 0
IsFee top bottom =
    (non_positive bottom ≡ false)
    × (negative top ≡ false)
    × (leb_ℤ bottom top ≡ false)
    × (bit_len_exceeds top 256 ≡ false)
    × (bit_len_exceeds bottom 256 ≡ false)

-- The pool is the source's, it has a fee, and its gas is not zero.
abbrev pub IsPriced : Liquidity → Pool → Type 0
IsPriced l pool =
    (pool.id ≡ l.id)
    × (pool.kind ≡ l.kind)
    × ((pool.gas_estimate == 0) ≡ false)
    × ((fee : ℤ × ℤ) × (pool.fee_num ≡ some fee.0)
        × (pool.fee_den ≡ some fee.1)
        × IsFee fee.0 fee.1)

-- What a builder keeps of the pool it is given.
abbrev SameBase : Pool → Pool → Type 0
SameBase base pool =
    (pool.id ≡ base.id)
    × (pool.kind ≡ base.kind)
    × (pool.gas_estimate ≡ base.gas_estimate)
    × (pool.fee_num ≡ base.fee_num)
    × (pool.fee_den ≡ base.fee_den)

build_constant_product-same :
    (l : Liquidity) (base pool : Pool)
    → build_constant_product l base ≡ ok pool
    → SameBase base pool
unfolding build_constant_product
build_constant_product-same l base pool h =
    let (tokens, _, h1) = >>=-eq-ok (decode_reserves false l.tokens) _ h in
    let (_, h2) = fail_if-eq-ok _ _ _ h1 in
    let (addresses, _, h3) = >>=-eq-ok (or_skip (addresses_of tokens)) _ h2 in
    let ((a, b), _, h4) = >>=-eq-ok (two_addresses addresses) _ h3 in
    let (ra, _, h5) =
      >>=-eq-ok (or_skip (parse_positive_unsigned (balance_at tokens a) 256)) _ h4 in
    let (rb, _, h6) =
      >>=-eq-ok (or_skip (parse_positive_unsigned (balance_at tokens b) 256)) _ h5 in
    subst (SameBase base) (ok-injective _ pool h6) (refl, refl, refl, refl, refl)

build_concentrated-same :
    (l : Liquidity) (base pool : Pool) → build_concentrated l base ≡ ok pool → SameBase base pool
unfolding build_concentrated
build_concentrated-same l base pool h =
    let (tokens, _, h1) = >>=-eq-ok (or_fail (decode_string_array l.tokens) skipped) _ h in
    let ((a, b), _, h2) = >>=-eq-ok (two_addresses tokens) _ h1 in
    let (_, h3) = fail_if-eq-ok _ _ _ h2 in
    let (price, _, h4) = >>=-eq-ok (or_skip (parse_positive_unsigned l.sqrt_price 256)) _ h3 in
    let (liquidity, _, h5) = >>=-eq-ok (or_skip (parse_positive_unsigned l.liquidity 128)) _ h4 in
    let (tick, _, h6) = >>=-eq-ok (or_skip l.tick) _ h5 in
    let (_, h7) = fail_if-eq-ok _ _ _ h6 in
    let (ticks, _, h8) = >>=-eq-ok (parse_ticks l.liquidity_net []) _ h7 in
    subst (SameBase base) (ok-injective _ pool h8) (refl, refl, refl, refl, refl)

build_stable-same :
    (l : Liquidity) (base pool : Pool) → build_stable l base ≡ ok pool → SameBase base pool
unfolding build_stable
build_stable-same l base pool h =
    let (tokens, _, h1) = >>=-eq-ok (or_fail (decode_reserves true l.tokens) skipped) _ h in
    let (_, h2) = fail_if-eq-ok _ _ _ h1 in
    let (amp, _, h3) = >>=-eq-ok (parse_scaled l.amplification_parameter (pos 1000)) _ h2 in
    let (addresses, _, h4) = >>=-eq-ok (or_skip (addresses_of tokens)) _ h3 in
    let ((balances, factors), _, h5) = >>=-eq-ok (parse_reserves tokens addresses) _ h4 in
    let ((a, b), _, h6) = >>=-eq-ok (first_two addresses) _ h5 in
    subst (SameBase base) (ok-injective _ pool h6) (refl, refl, refl, refl, refl)

build_kind-same :
    (l : Liquidity) (base pool : Pool) → build_kind l base ≡ ok pool → SameBase base pool
unfolding build_kind
build_kind-same l base pool h = elim (Bool-cases (text_eq l.kind constant_product_kind)) [
  | inl c ↦ build_constant_product-same l base pool (rw c at h)
  | inr nc ↦ elim (Bool-cases (text_eq l.kind concentrated_kind)) [
    | inl c ↦ build_concentrated-same l base pool (rw (nc, c) at h)
    | inr nc2 ↦ elim (Bool-cases (text_eq l.kind stable_kind)) [
      | inl c ↦ build_stable-same l base pool (rw (nc, nc2, c) at h)
      | inr nc3 ↦ let clash = rw (nc, nc2, nc3) at h in cc
    ]
  ]
]

none_of_five :
    (a b c d e : Bool)
    → (a || b || c || d || e) ≡ false
    → (a ≡ false) × (b ≡ false) × (c ≡ false) × (d ≡ false) × (e ≡ false)
none_of_five false false false false false h = (refl, refl, refl, refl, refl)
none_of_five true b c d e h = cc
none_of_five false true c d e h = cc
none_of_five false false true d e h = cc
none_of_five false false false true e h = cc
none_of_five false false false false true h = cc

parse_fee-IsFee :
    (raw : Text) (top bottom : ℤ) → parse_fee raw ≡ ok (top, bottom) → IsFee top bottom
unfolding parse_fee
parse_fee-IsFee raw top bottom h =
    let (_, h1) = fail_if-eq-ok _ _ _ h in
    let ((t, b), _, h2) =
      >>=-eq-ok (or_fail (parse_decimal_rational (trim_space raw)) skipped) _ h1 in
    let (tests, h3) = fail_if-eq-ok _ _ _ h2 in
    subst (λ (f : ℤ × ℤ). IsFee f.0 f.1) (ok-injective (t, b) (top, bottom) h3)
      (none_of_five _ _ _ _ _ tests)

parse_gas-positive : (raw : Text) (gas : ℕ) → parse_gas raw ≡ ok gas → (gas == 0) ≡ false
unfolding parse_gas
parse_gas-positive raw gas h =
    let (_, h1) = fail_if-eq-ok (not (decimal_digits raw 20)) skipped _ h in
    let (read, _, h2) = >>=-eq-ok (or_skip (parse_uint64 raw)) _ h1 in
    elim (Bool-cases (read == 0)) [
      | inl z ↦ subst (λ g. (g == 0) ≡ false) (ok-injective _ gas (rw z at h2)) refl
      | inr nz ↦ subst (λ g. (g == 0) ≡ false) (ok-injective _ gas (rw nz at h2)) nz
    ]

-- A pool that is built is the source's, its fee is a fraction of at least 0 and below 1, of two
-- numbers of at most 256 bits, and its gas is not zero.
pub build_pool-IsPriced : (l : Liquidity) (pool : Pool) → build_pool l ≡ ok pool → IsPriced l pool
unfolding build_pool
build_pool-IsPriced l pool h =
    let ((top, bottom), is_fee, h1) = >>=-eq-ok (parse_fee l.fee) _ h in
    let (gas, is_gas, h2) = >>=-eq-ok (parse_gas l.gas_estimate) _ h1 in
    let (id, kind, est, num, den) = build_kind-same l (base_pool l gas top bottom) pool h2 in
    (
      id,
      kind,
      rw est (parse_gas-positive l.gas_estimate gas is_gas),
      ((top, bottom), num, den, parse_fee-IsFee l.fee top bottom is_fee),
    )
