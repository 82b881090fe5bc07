-- ===== src/Amm/Pool.antt =====
-- internal/amm/amm.go: the pool of a liquidity source and its tokens. A field that is a pointer in
-- the source is an `Option`; `int32` values are integers.
pub mod Tokens
use aladdin_solver_engine.Prelude.{
  Bool, Bool-cases, Error, List, Option, Result, Text, [], arith, codes, equal_fold, err,
  err-injective, fail_if, false, if◌then◌else◌, inl, inr, map, negsuc, none, not, ok, pos, refl,
  some, text_eq, to_lower, ℕ, ℤ, ◌&&◌, ◌++◌, ◌>>=◌, ◌>>◌, ◌||◌, ◌∷◌, ◌≡◌, ◌≢◌, ◌≤◌,
}
use aladdin_solver_engine.Amm.U256.{is_u256, max_u256}

pub record Tick : Type 0 where
  pub index : ℤ
  pub net : ℤ

pub record Pool : Type 0 where
  pub id : Text
  pub kind : Text
  pub address : Text
  pub gas_estimate : ℕ
  pub token_a : Text
  pub token_b : Text
  pub reserve_a : Option ℤ
  pub reserve_b : Option ℤ
  pub fee_num : Option ℤ
  pub fee_den : Option ℤ
  pub sqrt_price_x96 : Option ℤ
  pub liquidity : Option ℤ
  pub tick : ℤ
  pub ticks : List Tick
  pub token_list : List Text
  pub balances : List (Option ℤ)
  pub scaling_factors : List (Option ℤ)
  pub amplification_raw : Option ℤ

abbrev pub constant_product_kind : Text
constant_product_kind = codes "constantProduct"

abbrev pub concentrated_kind : Text
concentrated_kind = codes "concentratedLiquidity"

abbrev pub stable_kind : Text
stable_kind = codes "stable"

-- `Tokens`: the view of a pool as two tokens.
unfoldable pub tokens : Pool → Text × Text
tokens p = (p.token_a, p.token_b)

two_tokens : Text → Text → List Text
two_tokens a b =
    (if text_eq a [] then [] else to_lower a ∷ [])
    ++ (if text_eq b [] || equal_fold a b then [] else to_lower b ∷ [])

unfoldable pub all_tokens : Pool → List Text
unfolding two_tokens
all_tokens p = elim p.token_list [
  | [] ↦ two_tokens p.token_a p.token_b
  | t ∷ ts ↦ map to_lower (t ∷ ts)
]

-- The loop of `Supports`, over its flags `in` and `out`.
supports_loop : Text → Text → List Text → Bool → Bool → Bool
supports_loop token_in token_out [] found_in found_out = found_in && found_out
supports_loop token_in token_out (token ∷ rest) found_in found_out =
    supports_loop token_in token_out rest (found_in || equal_fold token token_in)
      (found_out || equal_fold token token_out)

unfoldable pub supports : Pool → Text → Text → Bool
unfolding supports_loop
supports p token_in token_out =
    if equal_fold token_in token_out
    then false
    else supports_loop token_in token_out (all_tokens p) false false

-- `Other`: the empty text unless the pool has two tokens, one of them the given one.
other_of : Text → List Text → Text
other_of token (a ∷ b ∷ []) = if equal_fold token a then b else if equal_fold token b then a else []
other_of token _ = []

unfoldable pub other : Pool → Text → Text
unfolding other_of
other p token = other_of token (all_tokens p)

-- A pointer that must hold a `uint256`: `isU256` of nil is false.
unfoldable pub require_u256 : Option ℤ → Error → Result ℤ
unfolding is_u256
require_u256 none e = err e
require_u256 (some value) e = do fail_if (not (is_u256 value)) e; ok value

-- A chain that succeeds after such a test goes on from the number.
pub require_u256-then :
    {B : Type 0} (f : ℤ → Result B) {r : B} (o : Option ℤ) (e : Error)
    → (require_u256 o e >>= f) ≡ ok r
    → (x : ℕ) × (o ≡ some (pos x)) × (x ≤ max_u256) × (f (pos x) ≡ ok r)
unfolding require_u256
require_u256-then f none e h = cc
require_u256-then f (some (pos x)) e h = (x, refl, ground arith, ground arith)
require_u256-then f (some (negsuc x)) e h = absurd (ground arith)

-- A chain that fails after such a test, with another error than the test's, goes on too.
pub require_u256-avoids :
    {B : Type 0} (f : ℤ → Result B) (o : Option ℤ) (e e' : Error)
    → e ≢ e'
    → ((x : ℕ) → o ≡ some (pos x) → f (pos x) ≡ err e' → ⊥)
    → (require_u256 o e >>= f) ≡ err e'
    → ⊥
unfolding require_u256
require_u256-avoids f none e e' ne k h = ne (err-injective e e' h)
require_u256-avoids f (some (pos x)) e e' ne k h = elim (Bool-cases (is_u256 (pos x))) [
  | inl fits ↦ k x refl (rw fits at h)
  | inr large ↦ ne (err-injective e e' (rw large at h))
]
require_u256-avoids f (some (negsuc x)) e e' ne k h = ne (err-injective e e' h)
