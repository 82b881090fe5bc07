-- ===== src/Amm/Quote/Laws.antt =====
-- What a quote of any kind needs, and when the two-token quote is one of a pair.
use aladdin_solver_engine.Prelude.{
  Result, Text, abs, arith, equal_fold, err, fail_if-eq-ok, false, if◌then◌else◌, negsuc,
  non_positive, not, ok, pos, refl, text_eq, text_eq_iff, unsupported_kind, ℤ, ◌||◌, ◌≡◌, ◌≤◌, ◌⊎◌,
}
use aladdin_solver_engine.Amm.U256.{is_u256, max_u256}
use aladdin_solver_engine.Amm.Pool.{
  Pool, all_tokens, concentrated_kind, constant_product_kind, stable_kind, supports,
}
use aladdin_solver_engine.Amm.Pool.Tokens.{Holds, supports_iff}
use aladdin_solver_engine.Amm.Stable.Newton.{Positive}
use aladdin_solver_engine.Amm.Quote.{quote_exact_in_pair}

-- The pool's kind is one of the three that the engine can quote.
abbrev pub IsQuotable : Text → Type 0
IsQuotable kind =
    (kind ≡ constant_product_kind) ⊎ ((kind ≡ concentrated_kind) ⊎ (kind ≡ stable_kind))

kinds :
    (kind : Text) (a b c : Result ℤ) (out : ℤ)
    → (if text_eq kind constant_product_kind
        then a
        else if text_eq kind concentrated_kind
        then b
        else if text_eq kind stable_kind
        then c
        else err unsupported_kind)
      ≡ ok out
    → IsQuotable kind
kinds kind a b c out h = ground (
  arith,
  text_eq_iff kind constant_product_kind,
  text_eq_iff kind concentrated_kind,
  text_eq_iff kind stable_kind,
)

amount_ok : (a : ℤ) → (not (is_u256 a) || non_positive a) ≡ false → Positive a × (abs a ≤ max_u256)
unfolding is_u256
amount_ok (pos k) h = ((k, refl, ground arith), ground arith)
amount_ok (negsuc k) h = absurd (ground arith)

-- A quote that succeeds was asked for a positive amount of 256 bits, of a pool of a kind that can be
-- quoted, which holds both tokens; and the tokens differ.
pub quote_exact_in_pair-ok :
    (p : Pool) (token_in token_out : Text) (amount_in out : ℤ)
    → quote_exact_in_pair p token_in token_out amount_in ≡ ok out
    → Positive amount_in
      × (abs amount_in ≤ max_u256)
      × (equal_fold token_in token_out ≡ false)
      × Holds token_in (all_tokens p)
      × Holds token_out (all_tokens p)
      × IsQuotable p.kind
unfolding quote_exact_in_pair
quote_exact_in_pair-ok p token_in token_out amount_in out h =
    let (bad, h1) = fail_if-eq-ok (not (is_u256 amount_in) || non_positive amount_in) _ _ h in
    let (ns, h2) = fail_if-eq-ok (not (supports p token_in token_out)) _ _ h1 in
    let (pos_in, small) = amount_ok amount_in bad in
    let (differ, held_in, held_out) = (supports_iff p token_in token_out).0 (ground arith) in
    (pos_in, small, differ, held_in, held_out, kinds p.kind _ _ _ out h2)
