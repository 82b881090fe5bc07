-- ===== src/Contract/Auction.antt =====
-- internal/contract/contract.go, ValidateAuctionJSON and what it calls.
use aladdin_solver_engine.Prelude.{
  Bool, List, Option, Result, Text, [], codes, err, if◌then◌else◌, map_get, none, ok, some, text_eq,
  unsupported_kind_value, ◌++◌, ◌>>=◌, ◌>>◌, ◌||◌, ◌∷◌,
}
use aladdin_solver_engine.Json.{Json, Raw}
use aladdin_solver_engine.Json.Walk.{validate_unique_json}
use aladdin_solver_engine.Contract.{
  Object, array, bool_value, each, exact_object, fields, number_value, object, required_string,
  string_value, strings_at, unless_null, when_present,
}

abbrev order_strings : List Text
order_strings =
    codes "uid"
    ∷ codes "sellToken"
    ∷ codes "buyToken"
    ∷ codes "sellAmount"
    ∷ codes "fullSellAmount"
    ∷ codes "buyAmount"
    ∷ codes "fullBuyAmount"
    ∷ codes "kind"
    ∷ codes "owner"
    ∷ codes "sellTokenSource"
    ∷ codes "buyTokenDestination"
    ∷ codes "class"
    ∷ codes "appData"
    ∷ codes "signingScheme"
    ∷ codes "signature"
    ∷ []

abbrev order_required : List Text
order_required =
    codes "uid"
    ∷ codes "sellToken"
    ∷ codes "buyToken"
    ∷ codes "sellAmount"
    ∷ codes "fullSellAmount"
    ∷ codes "buyAmount"
    ∷ codes "fullBuyAmount"
    ∷ codes "validTo"
    ∷ codes "kind"
    ∷ codes "owner"
    ∷ codes "partiallyFillable"
    ∷ codes "preInteractions"
    ∷ codes "postInteractions"
    ∷ codes "sellTokenSource"
    ∷ codes "buyTokenDestination"
    ∷ codes "class"
    ∷ codes "appData"
    ∷ codes "signingScheme"
    ∷ codes "signature"
    ∷ []

abbrev order_allowed : List Text
order_allowed =
    order_required
    ++ (codes "feePolicies" ∷ codes "receiver" ∷ codes "flashloanHint" ∷ codes "wrappers" ∷ [])

abbrev surplus_fields : List Text
surplus_fields = codes "kind" ∷ codes "factor" ∷ codes "maxVolumeFactor" ∷ []

abbrev improvement_fields : List Text
improvement_fields = codes "kind" ∷ codes "factor" ∷ codes "maxVolumeFactor" ∷ codes "quote" ∷ []

abbrev volume_fields : List Text
volume_fields = codes "kind" ∷ codes "factor" ∷ []

abbrev quote_fields : List Text
quote_fields = codes "sellAmount" ∷ codes "buyAmount" ∷ codes "fee" ∷ []

price_improvement : Object → Result (Unit {0})
price_improvement value = do
  fields value improvement_fields improvement_fields
  quote ← object (map_get value (codes "quote"))
  fields quote quote_fields quote_fields

unfoldable pub validate_fee_policy : Json → Result (Unit {0})
unfolding price_improvement
validate_fee_policy raw = do
  value ← object (some raw)
  kind ← required_string value (codes "kind")
  if text_eq kind (codes "surplus")
      then fields value surplus_fields surplus_fields
      else if text_eq kind (codes "priceImprovement")
      then price_improvement value
      else if text_eq kind (codes "volume")
      then fields value volume_fields volume_fields
      else err unsupported_kind_value

-- The interactions before and after the trade.
interactions_at : Object → Text → Result (Unit {0})
interactions_at value name = do
  items ← array (map_get value name)
  each (exact_object (codes "target" ∷ codes "value" ∷ codes "callData" ∷ [])) items

validate_wrapper : Json → Result (Unit {0})
validate_wrapper raw = do
  wrapper ← object (some raw)
  fields wrapper (codes "address" ∷ codes "data" ∷ [])
      (codes "address" ∷ codes "data" ∷ codes "isOmittable" ∷ [])

-- The parts of an order that may be absent.
optional_parts : Object → Result (Unit {0})
unfolding validate_wrapper
optional_parts value = do
  when_present value (codes "feePolicies")
      (λ raw. do items ← array raw; each validate_fee_policy items)
  unless_null value (codes "flashloanHint") (λ raw. do
    hint ← object raw
    let names =
        codes "liquidityProvider"
        ∷ codes "protocolAdapter"
        ∷ codes "receiver"
        ∷ codes "token"
        ∷ codes "amount"
        ∷ []
    fields hint names names)
  when_present value (codes "wrappers") (λ raw. do items ← array raw; each validate_wrapper items)

unfoldable pub validate_order : Json → Result (Unit {0})
unfolding interactions_at optional_parts
validate_order raw = do
  value ← object (some raw)
  fields value order_required order_allowed
  strings_at value order_strings
  number_value (map_get value (codes "validTo"))
  bool_value (map_get value (codes "partiallyFillable"))
  interactions_at value (codes "preInteractions")
  interactions_at value (codes "postInteractions")
  optional_parts value

abbrev liquidity_common : List Text
liquidity_common = codes "kind" ∷ codes "id" ∷ codes "address" ∷ codes "gasEstimate" ∷ []

-- The names that each kind of liquidity has, and no others.
unfoldable pub liquidity_names : Text → Option (List Text)
liquidity_names kind =
    if text_eq kind (codes "constantProduct")
    then some (liquidity_common ++ (codes "tokens" ∷ codes "fee" ∷ codes "router" ∷ []))
    else if text_eq kind (codes "stable")
    then some (
        liquidity_common
        ++ (codes "tokens"
            ∷ codes "amplificationParameter"
            ∷ codes "fee"
            ∷ codes "balancerPoolId"
            ∷ []))
    else if text_eq kind (codes "weightedProduct")
    then some (
        liquidity_common
        ++ (codes "tokens" ∷ codes "fee" ∷ codes "version" ∷ codes "balancerPoolId" ∷ []))
    else if text_eq kind (codes "concentratedLiquidity")
    then some (
        liquidity_common
        ++ (codes "tokens"
            ∷ codes "sqrtPrice"
            ∷ codes "liquidity"
            ∷ codes "tick"
            ∷ codes "liquidityNet"
            ∷ codes "fee"
            ∷ codes "router"
            ∷ []))
    else if text_eq kind (codes "limitOrder")
    then some (
        liquidity_common
        ++ (codes "hash"
            ∷ codes "makerToken"
            ∷ codes "takerToken"
            ∷ codes "makerAmount"
            ∷ codes "takerAmount"
            ∷ codes "takerTokenFeeAmount"
            ∷ []))
    else none

-- The fields of a reserve of such a pool.
abbrev reserve_names : Text → List Text
reserve_names kind =
    if text_eq kind (codes "stable")
    then codes "balance" ∷ codes "scalingFactor" ∷ []
    else if text_eq kind (codes "weightedProduct")
    then codes "balance" ∷ codes "scalingFactor" ∷ codes "weight" ∷ []
    else codes "balance" ∷ []

abbrev has_reserves : Text → Bool
has_reserves kind =
    text_eq kind (codes "constantProduct")
    || text_eq kind (codes "stable")
    || text_eq kind (codes "weightedProduct")

unfoldable pub validate_liquidity : Json → Result (Unit {0})
validate_liquidity raw = do
  value ← object (some raw)
  kind ← required_string value (codes "kind")
  elim (liquidity_names kind) [
    | none ↦ err unsupported_kind_value
    | some names ↦ do
      fields value names names
      strings_at value (codes "id" ∷ codes "address" ∷ codes "gasEstimate" ∷ [])
      if has_reserves kind
          then (do
            reserves ← object (map_get value (codes "tokens"))
            each (λ (token, reserve). exact_object (reserve_names kind) reserve) reserves)
          else ok tt
      if text_eq kind (codes "concentratedLiquidity")
          then (do
            items ← array (map_get value (codes "tokens"))
            net ← object (map_get value (codes "liquidityNet"))
            ok tt)
          else ok tt
  ]

validate_token : Json → Result (Unit {0})
validate_token raw = do
  info ← object (some raw)
  fields info (codes "availableBalance" ∷ codes "trusted" ∷ []) (
      codes "decimals"
      ∷ codes "symbol"
      ∷ codes "referencePrice"
      ∷ codes "availableBalance"
      ∷ codes "trusted"
      ∷ [])
  string_value (map_get info (codes "availableBalance"))
  bool_value (map_get info (codes "trusted"))

abbrev auction_required : List Text
auction_required =
    codes "tokens"
    ∷ codes "orders"
    ∷ codes "liquidity"
    ∷ codes "effectiveGasPrice"
    ∷ codes "deadline"
    ∷ codes "surplusCapturingJitOrderOwners"
    ∷ []

unfoldable pub validate_auction_json : Raw → Result (Unit {0})
unfolding validate_token
validate_auction_json raw = do
  validate_unique_json raw
  root ← object raw
  fields root auction_required (codes "id" ∷ auction_required)
  unless_null root (codes "id") string_value
  string_value (map_get root (codes "effectiveGasPrice"))
  string_value (map_get root (codes "deadline"))
  owners ← array (map_get root (codes "surplusCapturingJitOrderOwners"))
  tokens ← object (map_get root (codes "tokens"))
  each (λ (address, token). validate_token token) tokens
  orders ← array (map_get root (codes "orders"))
  each validate_order orders
  liquidity ← array (map_get root (codes "liquidity"))
  each validate_liquidity liquidity
