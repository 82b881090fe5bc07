-- ===== src/Server/Accepted.antt =====
-- internal/server/server.go, validateAuction: the orders of an auction that is accepted.
use aladdin_solver_engine.Prelude.{
  >>=-eq-ok, All, All-map, Bool, Bool-cases, List, Option, Option-cases, Text, [], all_distinct, ap,
  arith, bit_len_exceeds, duplicate_order, fail_if-eq-ok, false, inl, inr, invalid_gas_price,
  invalid_order, is_empty, mem_text, negative, negsuc, non_positive, none, not, ok, ok-injective,
  parse_int, pos, refl, some, sym, text_eq, text_eq_iff, to_lower, true, ℕ, ℤ, ◌&&◌, ◌<◌, ◌==◌, ◌^◌,
  ◌||◌, ◌∷◌, ◌≡◌,
}
use aladdin_solver_engine.Solve.Order.{Order, amounts_of}
use aladdin_solver_engine.Solve.Engine.{Auction}
use aladdin_solver_engine.Server.{
  check_orders, check_tokens, has_digits, lacks_fields, or_nil_error, valid_u256, validate_auction,
}

-- The text denotes a positive number of 256 bits.
abbrev pub IsU256 : Text → Type 0
IsU256 raw = (n : ℕ) × (parse_int raw ≡ some (pos n)) × (0 < n) × (n < 2 ^ 256)

positive_value :
    (v : ℤ)
    → (not (negative v || bit_len_exceeds v 256) && (false || not (non_positive v))) ≡ true
    → (n : ℕ) × (v ≡ pos n) × (0 < n) × (n < 2 ^ 256)
positive_value (pos n) h = (n, refl, ground arith, ground arith)
positive_value (negsuc n) h = cc

both_true : (a b : Bool) → (a && b) ≡ true → (a ≡ true) × (b ≡ true)
both_true a b h = ground arith

valid_u256-IsU256 : (raw : Text) → valid_u256 raw false ≡ true → IsU256 raw
unfolding valid_u256
valid_u256-IsU256 raw h = elim (Option-cases (parse_int raw)) [
  | inl e ↦ let (_, h1) = both_true (has_digits raw 78) false (rw (valid_u256, e) at h) in cc
  | inr (v, e) ↦
      let (_, h1) = both_true (has_digits raw 78) _ (rw (valid_u256, e) at h) in
      let (n, is_n, p, fits) = positive_value v h1 in (n, rw e (ap some is_n), p, fits)
]

-- Both amounts of the order are positive numbers of 256 bits, and it has a name and two tokens.
abbrev pub IsAccepted : Order → Type 0
IsAccepted o =
    (is_empty o.uid ≡ false)
    × (is_empty o.sell_token ≡ false)
    × (is_empty o.buy_token ≡ false)
    × ((s : ℕ) × (b : ℕ) × (amounts_of o ≡ some (pos s, pos b))
        × (0 < s)
        × (s < 2 ^ 256)
        × (0 < b)
        × (b < 2 ^ 256))

has_fields :
    (a b c d e f : Bool)
    → (a || b || c || not d || not e || not f) ≡ false
    → (a ≡ false) × (b ≡ false) × (c ≡ false) × (d ≡ true) × (e ≡ true)
has_fields false false false true true f h = (refl, refl, refl, refl, refl)
has_fields true b c d e f h = cc
has_fields false true c d e f h = cc
has_fields false false true d e f h = cc
has_fields false false false false e f h = cc
has_fields false false false true false f h = cc

lacks_fields-IsAccepted : (o : Order) → lacks_fields o ≡ false → IsAccepted o
unfolding amounts_of
lacks_fields-IsAccepted o h =
    let (u, s, b, hs, hb) =
      has_fields _ _ _ (valid_u256 o.sell_amount false) (valid_u256 o.buy_amount false)
        (valid_u256 o.full_buy_amount false) h in
    let (n, en, pn, fn) = valid_u256-IsU256 o.sell_amount hs in
    let (m, em, pm, fm) = valid_u256-IsU256 o.buy_amount hb in
    let z : (n == 0) ≡ false = ground arith in
    let w : (m == 0) ≡ false = ground arith in
    (u, s, b, (n, m, rw (amounts_of, en, em, z, w) refl, pn, fn, pm, fm))

-- The names of the orders, in lower case.
abbrev pub uids : List Order → List Text
uids [] = []
uids (o ∷ rest) = to_lower o.uid ∷ uids rest

false_back : (s t : Text) → text_eq s t ≡ false → text_eq t s ≡ false
false_back s t h = elim (Bool-cases (text_eq t s)) [
  | inr e ↦ e
  | inl e ↦
      let same : t ≡ s = (text_eq_iff t s).0 e in let clash = (text_eq_iff s t).1 (sym same) in cc
]

not_first :
    (u x : Text) (seen : List Text)
    → mem_text x (u ∷ seen) ≡ false
    → (text_eq u x ≡ false) × (mem_text x seen ≡ false)
unfolding mem_text
not_first u x seen h = elim (Bool-cases (text_eq x u)) [
  | inl e ↦ let clash = rw (mem_text, e) at h in cc
  | inr e ↦ (false_back x u e, rw (mem_text, e) at h)
]

absent-All : (u : Text) (xs : List Text) → All (λ x. text_eq u x ≡ false) xs → mem_text u xs ≡ false
unfolding mem_text
absent-All u [] h = refl
absent-All u (x ∷ xs) (h, hs) = rw (mem_text, h) (absent-All u xs hs)

check_orders-ok :
    (orders : List Order) (seen : List Text)
    → check_orders orders seen ≡ ok tt
    → All IsAccepted orders
      × (all_distinct (uids orders) ≡ true)
      × All (λ x. mem_text x seen ≡ false) (uids orders)
unfolding check_orders all_distinct
check_orders-ok [] seen h = (tt, refl, tt)
check_orders-ok (o ∷ rest) seen h =
    let (fields, h1) = fail_if-eq-ok (lacks_fields o) invalid_order _ h in
    let (_, h2) =
      fail_if-eq-ok (not (is_empty o.full_sell_amount) && not (valid_u256 o.full_sell_amount false))
        invalid_order _ h1 in
    let (fresh, h3) = fail_if-eq-ok (mem_text (to_lower o.uid) seen) duplicate_order _ h2 in
    let (accepted, distinct, unseen) = check_orders-ok rest (to_lower o.uid ∷ seen) h3 in
    let apart =
      All-map _ (λ x. (text_eq (to_lower o.uid) x ≡ false) × (mem_text x seen ≡ false))
        (λ x. not_first (to_lower o.uid) x seen) (uids rest) unseen in
    let absent =
      absent-All (to_lower o.uid) (uids rest) (All-map _ _ (λ x p. p.0) (uids rest) apart) in
    (
      (lacks_fields-IsAccepted o fields, accepted),
      rw (all_distinct, absent) distinct,
      (fresh, All-map _ _ (λ x p. p.1) (uids rest) apart),
    )

or_nil_error-some : {A : Type 0} (o : Option A) (a : A) → or_nil_error o ≡ ok a → o ≡ some a
or_nil_error-some none a h = cc
or_nil_error-some (some b) a h = ap some (ok-injective b a h)

-- Every order of an auction that is accepted has a name, two tokens and two amounts that are
-- positive numbers of 256 bits, and no two orders have names that differ in case only or not at all.
pub validate_auction-IsAccepted :
    (auction : Auction)
    → validate_auction auction ≡ ok tt
    → (orders : List Order) × (auction.orders ≡ some orders)
      × All IsAccepted orders
      × (all_distinct (uids orders) ≡ true)
unfolding validate_auction
validate_auction-IsAccepted auction h =
    let (tokens, _, h1) = >>=-eq-ok (or_nil_error auction.tokens) _ h in
    let (orders, is_orders, h2) = >>=-eq-ok (or_nil_error auction.orders) _ h1 in
    let (liquidity, _, h3) = >>=-eq-ok (or_nil_error auction.liquidity) _ h2 in
    let (owners, _, h4) = >>=-eq-ok (or_nil_error auction.surplus_capturing_jit_order_owner) _ h3 in
    let (_, h5) =
      fail_if-eq-ok (not (valid_u256 auction.effective_gas_price true)) invalid_gas_price _ h4 in
    let (_, _, h6) = >>=-eq-ok (check_tokens tokens []) _ h5 in
    let (_, checked, _) = >>=-eq-ok (check_orders orders []) _ h6 in
    let (accepted, distinct, _) = check_orders-ok orders [] checked in
    (orders, or_nil_error-some auction.orders orders is_orders, accepted, distinct)
