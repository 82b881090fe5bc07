-- ===== src/Solve/Order/Settleable.antt =====
-- internal/solve/solve.go, eligible: the orders that can be settled, by their fields.
use aladdin_solver_engine.Prelude.{
  Bool, List, Text, [], arith, codes, equal_fold, false, is_empty, not, refl, text_eq, text_eq_iff,
  to_lower, trim_space, true, ◌&&◌, ◌||◌, ◌↔◌, ◌∷◌, ◌≡◌, ◌≢◌, ◌⊎◌,
}
use aladdin_solver_engine.Solve.Order.{
  Order, RawMessage, buy_kind, has_non_null_json, is_unsupported, other_than_erc20, sell_kind,
}
use aladdin_solver_engine.Solve.Order.Supported.{IsSupported}

-- Nothing is said of where a token comes from or goes to, or it is the token's own balance.
abbrev pub IsErc20 : Text → Type 0
IsErc20 s = (s ≡ []) ⊎ (s ≡ codes "erc20")

-- No JSON at all, or `null`.
abbrev pub IsNullJson : RawMessage → Type 0
IsNullJson raw = (trim_space raw ≡ []) ⊎ (trim_space raw ≡ codes "null")

-- An order without interactions, wrappers, fees and a flash loan, of plain tokens that differ up to
-- case, to sell or to buy.
abbrev pub IsSettleable : Order → Type 0
IsSettleable order =
    (order.pre_interactions ≡ [])
    × (order.post_interactions ≡ [])
    × (order.wrappers ≡ [])
    × (order.fee_policies ≡ [])
    × IsNullJson order.flashloan_hint
    × IsErc20 order.sell_token_source
    × IsErc20 order.buy_token_dest
    × ((order.kind ≡ sell_kind) ⊎ (order.kind ≡ buy_kind))
    × (to_lower order.sell_token ≢ to_lower order.buy_token)

empty_iff {ℓ} : {A : Type ℓ} (xs : List A) → (not (is_empty xs) ≡ false) ↔ (xs ≡ [])
empty_iff [] = (λ h. refl, λ h. refl)
empty_iff (x ∷ xs) = (λ h. absurd (ground arith), λ h. cc)

IsNullJson-iff : (raw : RawMessage) → (has_non_null_json raw ≡ false) ↔ IsNullJson raw
unfolding has_non_null_json
IsNullJson-iff raw =
    ground (arith, empty_iff (trim_space raw), text_eq_iff (trim_space raw) (codes "null"))

IsErc20-iff : (s : Text) → (other_than_erc20 s ≡ false) ↔ IsErc20 s
IsErc20-iff s = ground (arith, text_eq_iff s [], text_eq_iff s (codes "erc20"))

kind_iff :
    (kind : Text)
    → ((not (text_eq kind sell_kind) && not (text_eq kind buy_kind)) ≡ false)
      ↔ ((kind ≡ sell_kind) ⊎ (kind ≡ buy_kind))
kind_iff kind = ground (arith, text_eq_iff kind sell_kind, text_eq_iff kind buy_kind)

differ_iff : (a b : Text) → (equal_fold a b ≡ false) ↔ (to_lower a ≢ to_lower b)
unfolding equal_fold
differ_iff a b = ground (arith, text_eq_iff (to_lower a) (to_lower b))

-- A test of several refusals passes if none of them holds.
or_iff :
    (a b : Bool) {P Q : Type 0} → (a ≡ false) ↔ P → (b ≡ false) ↔ Q → ((a || b) ≡ false) ↔ (P × Q)
or_iff true b p q = (λ h. absurd (ground arith), λ h. p.1 h.0)
or_iff false b p q = (λ h. (p.0 refl, q.0 h), λ h. q.1 h.1)

-- The orders that are not refused are those that can be settled.
pub IsSupported-iff : (order : Order) → IsSupported order ↔ IsSettleable order
unfolding is_unsupported
IsSupported-iff order =
    let tests =
      or_iff _ _
        (or_iff _ _
          (or_iff _ _
            (or_iff _ _
              (or_iff _ _
                (or_iff _ _
                  (or_iff _ _
                    (or_iff _ _ (empty_iff order.pre_interactions)
                      (empty_iff order.post_interactions))
                    (empty_iff order.wrappers))
                  (empty_iff order.fee_policies))
                (IsNullJson-iff order.flashloan_hint))
              (IsErc20-iff order.sell_token_source))
            (IsErc20-iff order.buy_token_dest))
          (kind_iff order.kind))
        (differ_iff order.sell_token order.buy_token) in
    (
      λ h.
          let ((((((((pre, post), wrap), fees), flash), source), dest), kind), differ) =
            tests.0 h in
          (pre, post, wrap, fees, flash, source, dest, kind, differ),
      λ (pre, post, wrap, fees, flash, source, dest, kind, differ).
          tests.1 ((((((((pre, post), wrap), fees), flash), source), dest), kind), differ),
    )
