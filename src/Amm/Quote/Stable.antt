-- ===== src/Amm/Quote/Stable.antt =====
-- internal/amm/stable.go, quoteStable: it agrees with the quote of the pair.
use aladdin_solver_engine.Amm.Pool.Tokens.{supports_iff}
use aladdin_solver_engine.Amm.U256.{is_u256}
use aladdin_solver_engine.Prelude.{
  Text, [], equal_fold, false, inl, inr, negsuc, non_positive, pos, refl, text_eq, text_eq_refl,
  to_lower, true, ℤ, ◌∷◌, ◌≡◌,
}
use aladdin_solver_engine.Amm.Pool.{
  Pool, all_tokens, concentrated_kind, constant_product_kind, stable_kind, supports,
}
use aladdin_solver_engine.Amm.Quote.{
  last_index, quote_exact_in_pair, quote_stable, quote_stable_pair, stable_indices,
}

module _ (a b : Text) (la : to_lower a ≡ a) (lb : to_lower b ≡ b) (differ : text_eq a b ≡ false)
    (back : text_eq b a ≡ false) where
  first_indices : stable_indices a b (a ∷ b ∷ []) 0 (negsuc 0) (negsuc 0) ≡ (pos 0, pos 1)
  unfolding stable_indices equal_fold
  first_indices = rw (la, lb, text_eq_refl a, back, text_eq_refl b) refl

  second_indices : stable_indices b a (a ∷ b ∷ []) 0 (negsuc 0) (negsuc 0) ≡ (pos 1, pos 0)
  unfolding stable_indices equal_fold
  second_indices = rw (la, lb, differ, text_eq_refl a, text_eq_refl b) refl

  first_index : last_index a (a ∷ b ∷ []) 0 (negsuc 0) ≡ pos 0
  unfolding last_index
  first_index = rw (text_eq_refl a, back) refl

  second_index : last_index b (a ∷ b ∷ []) 0 (negsuc 0) ≡ pos 1
  unfolding last_index
  second_index = rw (differ, text_eq_refl b) refl

  agrees :
      (p : Pool) (amount : ℤ)
      → p.token_list ≡ a ∷ b ∷ []
      → (quote_stable p a amount ≡ quote_stable_pair p a b amount)
        × (quote_stable p b amount ≡ quote_stable_pair p b a amount)
  unfolding quote_stable quote_stable_pair
  agrees p amount listed = (
    rw (quote_stable, quote_stable_pair, listed, first_index, first_indices) refl,
    rw (quote_stable, quote_stable_pair, listed, second_index, second_indices) refl,
  )

  supports_both :
      (p : Pool) → p.token_list ≡ a ∷ b ∷ [] → (supports p a b ≡ true) × (supports p b a ≡ true)
  unfolding all_tokens equal_fold
  supports_both p listed =
      let listed_tokens : all_tokens p ≡ a ∷ b ∷ [] = rw (all_tokens, listed, la, lb) refl in
      let differ_ab : equal_fold a b ≡ false = rw (equal_fold, la, lb) differ in
      let differ_ba : equal_fold b a ≡ false = rw (equal_fold, la, lb) back in
      let same_a : equal_fold a a ≡ true = rw (equal_fold, la) (text_eq_refl a) in
      let same_b : equal_fold b b ≡ true = rw (equal_fold, lb) (text_eq_refl b) in
      (
        (supports_iff p a b).1
            (differ_ab, rw listed_tokens (inl same_a), rw listed_tokens (inr (inl same_b))),
        (supports_iff p b a).1
            (differ_ba, rw listed_tokens (inr (inl same_b)), rw listed_tokens (inl same_a)),
      )

  -- In a stable pool that lists two tokens, both in lower case and different, the quote that finds
  -- the other token itself is, for a positive amount of 256 bits, the quote of the pair, both ways.
  pub quote_stable-quote_exact_in_pair :
      (p : Pool) (amount : ℤ)
      → p.kind ≡ stable_kind
      → p.token_list ≡ a ∷ b ∷ []
      → is_u256 amount ≡ true
      → non_positive amount ≡ false
      → (quote_stable p a amount ≡ quote_exact_in_pair p a b amount)
        × (quote_stable p b amount ≡ quote_exact_in_pair p b a amount)
  unfolding quote_exact_in_pair text_eq
  quote_stable-quote_exact_in_pair p amount kind listed fits positive =
      let (one_way, other_way) = agrees p amount listed in
      let (held, held_back) = supports_both p listed in
      let first : text_eq p.kind constant_product_kind ≡ false = rw kind refl in
      let second : text_eq p.kind concentrated_kind ≡ false = rw kind refl in
      let third : text_eq p.kind stable_kind ≡ true = rw kind refl in
      (
        rw (quote_exact_in_pair, fits, positive, held, first, second, third, la, lb) one_way,
        rw (quote_exact_in_pair, fits, positive, held_back, first, second, third, la, lb) other_way,
      )
