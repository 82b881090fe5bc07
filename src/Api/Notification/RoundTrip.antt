-- ===== src/Api/Notification/RoundTrip.antt =====
-- internal/api/types.go: a notification that is read, written and read again.
use mathlib.Core.Path.{subst}
use mathlib.Core.List.{append-nil, append_assoc}
use aladdin_solver_engine.Prelude.{
  >>=-eq-ok, Lacks, [], codes, map_delete, map_delete-Lacks, map_delete-append,
  map_delete-keeps_Lacks, map_get, map_get-append, map_put, map_put-append, ok, ok-injective, refl,
  some, text_eq, ◌++◌, ◌∙◌, ◌∷◌, ◌≡◌,
}
use aladdin_solver_engine.Json.{Json, str}
use aladdin_solver_engine.Contract.{Object}
use aladdin_solver_engine.Api.Notification.Kinds.{validate_notification_kind}
use aladdin_solver_engine.Api.Notification.{
  Notification, auction_id_json, read_auction_id, read_fields, read_kind, read_solution_id,
  without_ids, write_fields,
}
use aladdin_solver_engine.Api.Notification.Rereads.{
  read_auction_id-reread, read_kind-reread, read_solution_id-RereadsOption,
}

-- The three fields that are read apart.
abbrev own_fields : Json → Json → Json → Object
own_fields a s k = (codes "auctionId", a) ∷ (codes "solutionId", s) ∷ (codes "kind", k) ∷ []

abbrev LacksOwn : Object → Type 0
LacksOwn m = Lacks m (codes "auctionId") × Lacks m (codes "solutionId") × Lacks m (codes "kind")

without_ids-LacksOwn : (m : Object) → LacksOwn (without_ids m)
without_ids-LacksOwn m =
    let m1 = map_delete m (codes "auctionId") in
    let m2 = map_delete m1 (codes "solutionId") in
    (
      map_delete-keeps_Lacks m2 (codes "kind") (codes "auctionId") (
          map_delete-keeps_Lacks m1 (codes "solutionId") (codes "auctionId")
            (map_delete-Lacks m (codes "auctionId"))),
      map_delete-keeps_Lacks m2 (codes "kind") (codes "solutionId")
          (map_delete-Lacks m1 (codes "solutionId")),
      map_delete-Lacks m2 (codes "kind"),
    )

own_written :
    (m : Object) (a s k : Json)
    → LacksOwn m
    → map_put (map_put (map_put m (codes "auctionId") a) (codes "solutionId") s) (codes "kind") k
      ≡ m ++ own_fields a s k
unfolding map_get text_eq
own_written m a s k (ha, hs, hk) =
    let one : Object = (codes "auctionId", a) ∷ [] in
    let two : Object = (codes "auctionId", a) ∷ (codes "solutionId", s) ∷ [] in
    let first : map_put m (codes "auctionId") a ≡ m ++ one =
      map_put-append m (codes "auctionId") a ha in
    let second : map_put (m ++ one) (codes "solutionId") s ≡ m ++ two =
      map_put-append (m ++ one) (codes "solutionId") s
        (map_get-append m one (codes "solutionId") hs)
      ∙ append_assoc m one ((codes "solutionId", s) ∷ []) in
    let third : map_put (m ++ two) (codes "kind") k ≡ m ++ own_fields a s k =
      map_put-append (m ++ two) (codes "kind") k (map_get-append m two (codes "kind") hk)
      ∙ append_assoc m two ((codes "kind", k) ∷ []) in
    rw (first, second) third

own_deleted : (m : Object) (a s k : Json) → LacksOwn m → without_ids (m ++ own_fields a s k) ≡ m
unfolding map_delete text_eq
own_deleted m a s k (ha, hs, hk) =
    let after_first : map_delete (m ++ own_fields a s k) (codes "auctionId")
        ≡ m ++ ((codes "solutionId", s) ∷ (codes "kind", k) ∷ []) =
      map_delete-append m (own_fields a s k) (codes "auctionId") ha in
    let after_second : map_delete (m ++ ((codes "solutionId", s) ∷ (codes "kind", k) ∷ []))
          (codes "solutionId")
        ≡ m ++ ((codes "kind", k) ∷ []) =
      map_delete-append m _ (codes "solutionId") hs in
    let after_third : map_delete (m ++ ((codes "kind", k) ∷ [])) (codes "kind") ≡ m ++ [] =
      map_delete-append m _ (codes "kind") hk in
    rw (after_first, after_second) (after_third ∙ append-nil m)

own_read :
    (m : Object) (a s k : Json)
    → LacksOwn m
    → (map_get (m ++ own_fields a s k) (codes "auctionId") ≡ some a)
      × (map_get (m ++ own_fields a s k) (codes "solutionId") ≡ some s)
      × (map_get (m ++ own_fields a s k) (codes "kind") ≡ some k)
unfolding map_get text_eq
own_read m a s k (ha, hs, hk) = (
  map_get-append m (own_fields a s k) (codes "auctionId") ha,
  map_get-append m (own_fields a s k) (codes "solutionId") hs,
  map_get-append m (own_fields a s k) (codes "kind") hk,
)

-- What is written of a notification is read as that notification.
abbrev pub IsReread : Notification → Type 0
IsReread n = (fs : Object) × (write_fields n ≡ ok fs) × (read_fields fs ≡ ok n)

-- A notification that has been read is written without an error, and what is written is read as the
-- same notification: its identifiers, its kind and its other fields.
pub read_fields-IsReread : (m : Object) (n : Notification) → read_fields m ≡ ok n → IsReread n
unfolding read_fields write_fields
read_fields-IsReread m n h =
    let (a, ea, h1) = >>=-eq-ok (read_auction_id (map_get m (codes "auctionId"))) _ h in
    let (s, es, h2) = >>=-eq-ok (read_solution_id (map_get m (codes "solutionId"))) _ h1 in
    let (k, ek, h3) = >>=-eq-ok (read_kind (map_get m (codes "kind"))) _ h2 in
    let extra = without_ids m in
    let (_, valid, h4) = >>=-eq-ok (validate_notification_kind k extra) _ h3 in
    let lacks = without_ids-LacksOwn m in
    let (sj, written, reread) =
      read_solution_id-RereadsOption (map_get m (codes "solutionId")) s es in
    let (kind, nonempty) = read_kind-reread (map_get m (codes "kind")) k ek in
    let aj = auction_id_json a in
    let auction = read_auction_id-reread (map_get m (codes "auctionId")) a ea in
    let (ga, gs, gk) = own_read extra aj sj (str k) lacks in
    subst IsReread (ok-injective _ n h4) (
      extra ++ own_fields aj sj (str k),
      rw (nonempty, written, own_written extra aj sj (str k) lacks) refl,
      rw
          (
            read_fields,
            ga,
            auction,
            gs,
            reread,
            gk,
            kind,
            own_deleted extra aj sj (str k) lacks,
            valid,
          )
          refl,
    )
