-- ===== src/Solve/Order.antt =====
-- internal/api/types.go and internal/solve/solve.go: orders, the orders that the model settles, and
-- the solutions it returns.
pub mod Supported
pub mod Settleable
pub mod Selection
use aladdin_solver_engine.Prelude.{
  Bool, List, Option, Text, [], codes, equal_fold, false, if◌then◌else◌, is_empty, leb_ℤ, length,
  ltb_ℤ, non_positive, none, not, parse_int, pos, some, text_eq, trim_space, true, ℕ, ℤ, ◌&&◌, ◌++◌,
  ◌+◌, ◌||◌, ◌∷◌,
}

-- A raw JSON value: its bytes.
abbrev pub RawMessage : Type 0
RawMessage = Text

-- A fee policy, by its kind: its numbers are not read here.
pub record FeePolicy : Type 0 where
  pub kind : Text

pub record Order : Type 0 where
  pub uid : Text
  pub sell_token : Text
  pub buy_token : Text
  pub sell_amount : Text
  pub full_sell_amount : Text
  pub buy_amount : Text
  pub full_buy_amount : Text
  pub fee_policies : List FeePolicy
  pub valid_to : ℤ
  pub kind : Text
  pub receiver : Text
  pub owner : Text
  pub partially_fillable : Bool
  pub pre_interactions : List RawMessage
  pub post_interactions : List RawMessage
  pub sell_token_source : Text
  pub buy_token_dest : Text
  pub class : Text
  pub app_data : Text
  pub flashloan_hint : RawMessage
  pub wrappers : List RawMessage
  pub signing_scheme : Text
  pub signature : Text

pub record Trade : Type 0 where
  pub kind : Text
  pub order : Text
  pub executed_amount : Text
  pub fee : Text

pub record Interaction : Type 0 where
  pub kind : Text
  pub id : Text
  pub input_token : Text
  pub output_token : Text
  pub input_amount : Text
  pub output_amount : Text
  pub internalize : Bool

pub record Solution : Type 0 where
  pub id : ℕ
  pub prices : List (Text × Text)
  pub trades : List Trade
  pub interactions : List Interaction
  pub gas : ℕ

abbrev pub sell_kind : Text
sell_kind = codes "sell"

abbrev pub buy_kind : Text
buy_kind = codes "buy"

unfoldable pub has_non_null_json : RawMessage → Bool
has_non_null_json raw =
    let trimmed = trim_space raw in not (is_empty trimmed) && not (text_eq trimmed (codes "null"))

-- The token source or destination is one that is not handled.
abbrev other_than_erc20 : Text → Bool
other_than_erc20 s = not (text_eq s []) && not (text_eq s (codes "erc20"))

-- The five tests of the loop of `eligible`.
unfoldable pub is_unsupported : Order → Bool
is_unsupported order =
    not (is_empty order.pre_interactions)
    || not (is_empty order.post_interactions)
    || not (is_empty order.wrappers)
    || not (is_empty order.fee_policies)
    || has_non_null_json order.flashloan_hint
    || other_than_erc20 order.sell_token_source
    || other_than_erc20 order.buy_token_dest
    || (not (text_eq order.kind sell_kind) && not (text_eq order.kind buy_kind))
    || equal_fold order.sell_token order.buy_token

-- The loop, over the orders taken and the number refused; `max` not positive is no limit.
unfoldable pub eligible_loop : ℤ → List Order → List Order → ℕ → List Order × ℕ
eligible_loop max [] out unsupported = (out, unsupported)
eligible_loop max (order ∷ rest) out unsupported = elim (is_unsupported order) [
  | true ↦ eligible_loop max rest out (unsupported + 1)
  | false ↦
      let out' = out ++ (order ∷ []) in
      elim (ltb_ℤ (pos 0) max && leb_ℤ max (pos (length out'))) [
        | true ↦ (out', unsupported)
        | false ↦ eligible_loop max rest out' unsupported
      ]
]

unfoldable pub eligible : List Order → ℤ → List Order × ℕ
eligible orders max = eligible_loop max orders [] 0

-- Both amounts of an order, which must be positive.
unfoldable pub amounts_of : Order → Option (ℤ × ℤ)
amounts_of order = elim (parse_int order.sell_amount) [
  | none ↦ none
  | some sell ↦ elim (parse_int order.buy_amount) [
    | none ↦ none
    | some buy ↦ if non_positive sell || non_positive buy then none else some (sell, buy)
  ]
]
