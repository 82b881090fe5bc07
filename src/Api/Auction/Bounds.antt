-- ===== src/Api/Auction/Bounds.antt =====
-- internal/api/auction_validation.go: what the server may rely on once an auction has been decoded.
use mathlib.Core.Path.{subst}
use aladdin_solver_engine.Prelude.{
  >>=-eq-ok, All, Bool, List, Option, Result, Text, [], fail_if-eq-ok, false, invalid_deadline,
  invalid_gas_price, invalid_integer, invalid_order, is_empty, length, ltb, not, ok, ok-injective,
  refl, some, sym, true, ℤ, ◌&&◌, ◌-◌, ◌^◌, ◌||◌, ◌∙◌, ◌∷◌, ◌≡◌,
}
use aladdin_solver_engine.Api.Notification.Rereads.{or_error-ok}
use aladdin_solver_engine.Json.{Json}
use aladdin_solver_engine.Amm.Decimal.{all_digits}
use aladdin_solver_engine.Solve.Order.{Order}
use aladdin_solver_engine.Solve.Engine.{Auction, or_nil}
use aladdin_solver_engine.Api.Notification.Kinds.{or_error}
use aladdin_solver_engine.Api.Auction.{
  amount_beyond, bad_id, beyond, bound_orders, bound_tokens, unmarshal_auction, valid_decimal_u256,
}
use aladdin_solver_engine.Server.{has_digits, valid_u256}

same_and : (a b c : Bool) → (a && b && c) ≡ ((a && b) && c)
same_and true b c = refl
same_and false b c = refl

accepted_of : (b : Bool) → not b ≡ false → b ≡ true
accepted_of true h = refl
accepted_of false h = cc

-- The two packages read amounts alike.
same_amount :
    (raw : Text) (zero_too : Bool) → valid_decimal_u256 raw zero_too ≡ valid_u256 raw zero_too
unfolding valid_decimal_u256 valid_u256 has_digits
same_amount raw zero_too = same_and (not (is_empty raw || ltb 78 (length raw))) (all_digits raw) _

-- The order has the amounts that the server asks for.
abbrev pub HasAmounts : Order → Type 0
HasAmounts o =
    (valid_u256 o.sell_amount false ≡ true)
    × (valid_u256 o.full_sell_amount false ≡ true)
    × (valid_u256 o.buy_amount false ≡ true)
    × (valid_u256 o.full_buy_amount false ≡ true)

four_true :
    (a b c d : Bool)
    → (not a || not b || not c || not d) ≡ false
    → (a ≡ true) × (b ≡ true) × (c ≡ true) × (d ≡ true)
four_true true true true true h = (refl, refl, refl, refl)
four_true false b c d h = cc
four_true true false c d h = cc
four_true true true false d h = cc
four_true true true true false h = cc

amounts_given : (o : Order) → amount_beyond o ≡ false → HasAmounts o
amounts_given o h =
    let (s, fs, b, fb) = four_true _ _ _ _ h in
    (
      sym (same_amount o.sell_amount false) ∙ s,
      sym (same_amount o.full_sell_amount false) ∙ fs,
      sym (same_amount o.buy_amount false) ∙ b,
      sym (same_amount o.full_buy_amount false) ∙ fb,
    )

bound_orders-HasAmounts :
    (orders : List Order) → bound_orders orders ≡ ok tt → All HasAmounts orders
unfolding bound_orders
bound_orders-HasAmounts [] h = tt
bound_orders-HasAmounts (o ∷ rest) h =
    let (given, h1) = fail_if-eq-ok (amount_beyond o) invalid_order _ h in
    let (_, h2) = fail_if-eq-ok (beyond (2 ^ 32 - 1) o.valid_to) invalid_order _ h1 in
    (amounts_given o given, bound_orders-HasAmounts rest h2)

module _ (decode : Json → Result Auction) (parse_time : Text → Option ℤ) where
  -- An auction that is decoded has a price of gas that the server's own check accepts, orders whose
  -- four amounts it accepts, and a deadline that denotes a time.
  pub unmarshal_auction-HasAmounts :
      (j : Json) (auction : Auction)
      → unmarshal_auction decode parse_time j ≡ ok auction
      → (valid_u256 auction.effective_gas_price true ≡ true)
        × All HasAmounts (or_nil auction.orders)
        × ((time : ℤ) × (parse_time auction.deadline ≡ some time))
  unfolding unmarshal_auction
  unmarshal_auction-HasAmounts j auction h =
      let (a, _, h1) = >>=-eq-ok (decode j) _ h in
      let (_, h2) = fail_if-eq-ok (bad_id a.id) invalid_integer _ h1 in
      let (gas, h3) =
        fail_if-eq-ok (not (valid_decimal_u256 a.effective_gas_price true)) invalid_gas_price _
          h2 in
      let (time, is_time, h4) =
        >>=-eq-ok (or_error (parse_time a.deadline) invalid_deadline) _ h3 in
      let (_, _, h5) = >>=-eq-ok (bound_tokens (or_nil a.tokens)) _ h4 in
      let (_, bounded, h6) = >>=-eq-ok (bound_orders (or_nil a.orders)) _ h5 in
      subst
        (λ (b : Auction).
          (valid_u256 b.effective_gas_price true ≡ true)
          × All HasAmounts (or_nil b.orders)
          × ((t : ℤ) × (parse_time b.deadline ≡ some t)))
        (ok-injective a auction h6)
        (
          sym (same_amount a.effective_gas_price true) ∙ accepted_of _ gas,
          bound_orders-HasAmounts (or_nil a.orders) bounded,
          (time, or_error-ok (parse_time a.deadline) invalid_deadline time is_time),
        )
