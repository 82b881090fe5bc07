-- ===== src/Api/Notification.antt =====
-- internal/api/types.go, Notification and NotificationSolutionID, and
-- internal/api/notification_validation.go. An object is the map that its fields make.
pub mod Kinds
pub mod Rereads
pub mod RoundTrip
use aladdin_solver_engine.Prelude.{
  List, Option, Result, Text, [], codes, empty_kind, err, expected_object, expected_string,
  expected_uint64, fail_if, invalid_integer, invalid_representation, is_empty, map_delete, map_get,
  map_put, missing_field, none, ok, show_nat, some, ℕ, ◌>>=◌, ◌>>◌, ◌∷◌,
}
use aladdin_solver_engine.Json.{
  Items, Json, Raw, arr, item, items_of, map_of, no_items, null, num, obj, str,
}
use aladdin_solver_engine.Contract.{Object, decode_uint64}
use aladdin_solver_engine.Contract.Notification.{parse_int64}
use aladdin_solver_engine.Api.Notification.Kinds.{or_error, validate_notification_kind}

pub record NotificationSolutionId : Type 0 where
  pub single : Option ℕ
  pub merged : Option (List ℕ)

pub record Notification : Type 0 where
  pub auction_id : Option Text
  pub solution_id : Option NotificationSolutionId
  pub kind : Text
  pub extra : Object

unfoldable pub new_single : ℕ → NotificationSolutionId
new_single value = record { single = some value; merged = none }

unfoldable pub new_merged : List ℕ → NotificationSolutionId
new_merged values = record { single = none; merged = some values }

-- The loop over the items of an array: a null is refused.
unfoldable pub decode_ids : List Json → Result (List ℕ)
decode_ids [] = ok []
decode_ids (j ∷ rest) = do
  value ← or_error (decode_uint64 j) expected_uint64
  values ← decode_ids rest
  ok (value ∷ values)

-- `NotificationSolutionID.UnmarshalJSON`.
unfoldable pub unmarshal_solution_id : Json → Result NotificationSolutionId
unmarshal_solution_id (arr xs) = decode_ids (items_of xs) >>= λ values. ok (new_merged values)
unmarshal_solution_id j =
    or_error (decode_uint64 j) expected_uint64 >>= λ value. ok (new_single value)

unfoldable pub encode_ids : List ℕ → Items
encode_ids [] = no_items
encode_ids (n ∷ ns) = item (num (show_nat n)) (encode_ids ns)

-- `NotificationSolutionID.MarshalJSON`.
unfoldable pub marshal_solution_id : NotificationSolutionId → Result Json
marshal_solution_id id = elim id.single [
  | some value ↦ elim id.merged [
    | none ↦ ok (num (show_nat value))
    | some values ↦ err invalid_representation
  ]
  | none ↦ elim id.merged [
    | none ↦ err invalid_representation
    | some values ↦ ok (arr (encode_ids values))
  ]
]

-- `auctionId`: absent and null are nil.
unfoldable pub read_auction_id : Raw → Result (Option Text)
read_auction_id none = ok none
read_auction_id (some null) = ok none
read_auction_id (some (str s)) = or_error (parse_int64 s) invalid_integer >>= λ v. ok (some s)
read_auction_id (some _) = err expected_string

unfoldable pub read_solution_id : Raw → Result (Option NotificationSolutionId)
read_solution_id none = ok none
read_solution_id (some null) = ok none
read_solution_id (some j) = unmarshal_solution_id j >>= λ id. ok (some id)

-- `kind`: absent, null and empty are refused.
unfoldable pub read_kind : Raw → Result Text
read_kind none = err missing_field
read_kind (some null) = err missing_field
read_kind (some (str [])) = err empty_kind
read_kind (some (str (c ∷ cs))) = ok (c ∷ cs)
read_kind (some _) = err expected_string

abbrev pub without_ids : Object → Object
without_ids m =
    map_delete (map_delete (map_delete m (codes "auctionId")) (codes "solutionId")) (codes "kind")

-- `Notification.UnmarshalJSON`, of the map of the fields.
unfoldable pub read_fields : Object → Result Notification
read_fields m = do
  auction_id ← read_auction_id (map_get m (codes "auctionId"))
  solution_id ← read_solution_id (map_get m (codes "solutionId"))
  kind ← read_kind (map_get m (codes "kind"))
  let extra = without_ids m
  _ ← validate_notification_kind kind extra
  ok (record { auction_id = auction_id; solution_id = solution_id; kind = kind; extra = extra })

unfoldable pub unmarshal_notification : Json → Result Notification
unmarshal_notification (obj fs) = read_fields (map_of fs)
unmarshal_notification null = read_fields []
unmarshal_notification _ = err expected_object

unfoldable pub auction_id_json : Option Text → Json
auction_id_json none = null
auction_id_json (some s) = str s

unfoldable pub solution_id_json : Option NotificationSolutionId → Result Json
solution_id_json none = ok null
solution_id_json (some id) = marshal_solution_id id

-- `Notification.MarshalJSON`, up to the map that it prints.
unfoldable pub write_fields : Notification → Result Object
write_fields n = do
  fail_if (is_empty n.kind) empty_kind
  solution_id ← solution_id_json n.solution_id
  ok (
      map_put
        (map_put (map_put n.extra (codes "auctionId") (auction_id_json n.auction_id))
          (codes "solutionId") solution_id)
        (codes "kind") (str n.kind))
