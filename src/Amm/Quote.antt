-- ===== src/Amm/Quote.antt =====
-- internal/amm/amm.go, QuoteExactIn and QuoteExactInPair: the quote of a pool of any kind.
pub mod Laws
pub mod Stable
use aladdin_solver_engine.Prelude.{
  Bool, List, Result, Text, [], bad_amount_in, equal_fold, err, fail_if, false, if◌then◌else◌,
  length, needs_output_token, negative, negsuc, non_positive, not, pos, stable_needs_output_token,
  text_eq, to_lower, token_not_in_pool, token_pair_not_in_pool, unsupported_kind, ℕ, ℤ, ◌+◌, ◌-ℤ◌,
  ◌==◌, ◌>>◌, ◌||◌, ◌∷◌,
}
use aladdin_solver_engine.Amm.U256.{is_u256}
use aladdin_solver_engine.Amm.Pool.{
  Pool, all_tokens, concentrated_kind, constant_product_kind, other, stable_kind, supports,
}
use aladdin_solver_engine.Amm.Constant.{quote_constant_product}
use aladdin_solver_engine.Amm.Concentrated.{quote_concentrated}
use aladdin_solver_engine.Amm.Stable.{quote_stable_indexed}

-- The loop over `TokenList`: the last index of each of the two tokens, -1 if there is none.
unfoldable pub stable_indices : Text → Text → List Text → ℕ → ℤ → ℤ → ℤ × ℤ
stable_indices token_in token_out [] i in_index out_index = (in_index, out_index)
stable_indices token_in token_out (token ∷ rest) i in_index out_index =
    let is_in = equal_fold token token_in in
    stable_indices token_in token_out rest (i + 1) (if is_in then pos i else in_index)
      (if is_in then out_index else if equal_fold token token_out then pos i else out_index)

unfoldable pub quote_stable_pair : Pool → Text → Text → ℤ → Result ℤ
quote_stable_pair p token_in token_out amount_in =
    let (in_index, out_index) =
      stable_indices token_in token_out p.token_list 0 (negsuc 0) (negsuc 0) in
    quote_stable_indexed p in_index out_index amount_in

-- The loop over `TokenList`: the last index of the token, -1 if there is none.
unfoldable pub last_index : Text → List Text → ℕ → ℤ → ℤ
last_index token [] i found = found
last_index token (t ∷ ts) i found =
    last_index token ts (i + 1) (if text_eq t token then pos i else found)

-- `quoteStable`, in a pool of two tokens.
unfoldable pub quote_stable : Pool → Text → ℤ → Result ℤ
quote_stable p token_in amount_in = do
  let in_idx = last_index token_in p.token_list 0 (negsuc 0)
  fail_if (negative in_idx) token_not_in_pool
  fail_if (not (length p.token_list == 2)) stable_needs_output_token
  quote_stable_indexed p in_idx (pos 1 -ℤ in_idx) amount_in

unfoldable pub quote_exact_in_pair : Pool → Text → Text → ℤ → Result ℤ
unfolding quote_stable_pair
quote_exact_in_pair p token_in token_out amount_in = do
  fail_if (not (is_u256 amount_in) || non_positive amount_in) bad_amount_in
  fail_if (not (supports p token_in token_out)) token_pair_not_in_pool
  let lower_in = to_lower token_in
  let lower_out = to_lower token_out
  if text_eq p.kind constant_product_kind
      then quote_constant_product p lower_in amount_in
      else if text_eq p.kind concentrated_kind
      then quote_concentrated p lower_in amount_in
      else if text_eq p.kind stable_kind
      then quote_stable_pair p lower_in lower_out amount_in
      else err unsupported_kind

-- Some token of the list is equal to the given one up to case.
pub any_fold : Text → List Text → Bool
any_fold token [] = false
any_fold token (t ∷ ts) = equal_fold t token || any_fold token ts

unfoldable pub quote_exact_in : Pool → Text → ℤ → Result ℤ
unfolding any_fold
quote_exact_in p token_in amount_in =
    let token_out = other p token_in in
    if text_eq token_out []
    then (if any_fold token_in (all_tokens p)
        then err needs_output_token
        else err token_not_in_pool)
    else quote_exact_in_pair p token_in token_out amount_in
