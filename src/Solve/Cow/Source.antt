-- ===== src/Solve/Cow/Source.antt =====
-- internal/solve/solve.go, findCoWMatchesContext: the orders of a match are orders of the auction.
use aladdin_solver_engine.Prelude.{
  All, All-append, Bool-cases, List, Option-cases, [], inl, inr, some, text_eq, text_ltb, ℤ, ◌∷◌,
  ◌≡◌,
}
use aladdin_solver_engine.Solve.Context.{Context, fold_timed, go_on-eq-some, poll, timed-injective}
use aladdin_solver_engine.Solve.Order.{Order, amounts_of, sell_kind}
use aladdin_solver_engine.Solve.Cow.{
  Buckets, Key, Match, Matched, add_order, crosses, fill_bucket, find_cow_matches, find_partner,
  is_used, key_eq, match_keys, match_orders, nothing_matched, orders_at, sorted_keys,
}
use aladdin_solver_engine.Solve.Cow.Limits.{find_cow_matches-keeps, walk_on-keeps}

module _ (P : Order → Type 0) where
  -- Both orders of the match satisfy the predicate.
  abbrev pub Both : Match → Type 0
  Both m = P m.a × P m.b

  abbrev Stocked : Buckets → Type 0
  Stocked buckets = All (λ e. All P e.1) buckets

  orders_at-All : (buckets : Buckets) (key : Key) → Stocked buckets → All P (orders_at buckets key)
  unfolding orders_at
  orders_at-All [] key h = tt
  orders_at-All ((k, orders) ∷ rest) key (h, hs) = elim (Bool-cases (key_eq k key)) [
    | inl e ↦ rw (orders_at, e) h
    | inr e ↦ rw (orders_at, e) (orders_at-All rest key hs)
  ]

  add_order-Stocked :
      (buckets : Buckets) (key : Key) (o : Order)
      → P o
      → Stocked buckets
      → Stocked (add_order buckets key o)
  unfolding add_order
  add_order-Stocked [] key o p h = ((p, tt), tt)
  add_order-Stocked ((k, orders) ∷ rest) key o p (h, hs) = elim (Bool-cases (key_eq k key)) [
    | inl e ↦ rw (add_order, e) (All-append P orders (o ∷ []) h (p, tt), hs)
    | inr e ↦ rw (add_order, e) (h, add_order-Stocked rest key o p hs)
  ]

  fill-Stocked :
      (orders : List Order) (buckets buckets' : Buckets) (ctx ctx' : Context)
      → All P orders
      → Stocked buckets
      → fold_timed fill_bucket orders buckets ctx ≡ some (buckets', ctx')
      → Stocked buckets'
  unfolding fold_timed fill_bucket
  fill-Stocked [] buckets buckets' ctx ctx' ps h e =
      rw (← timed-injective buckets buckets' ctx ctx' e) h
  fill-Stocked (o ∷ rest) buckets buckets' ctx ctx' (p, ps) h e =
      let (b1, c1, e1, e2) = go_on-eq-some (fill_bucket o buckets ctx) _ e in
      let (_, c0, _, e3) = go_on-eq-some (poll ctx) _ e1 in
      elim (Bool-cases (text_eq o.kind sell_kind)) [
        | inl k ↦
            let same = timed-injective _ b1 _ c1 (rw k at e3) in
            fill-Stocked rest b1 buckets' c1 ctx' ps
              (rw (← same) (add_order-Stocked buckets _ o p h)) e2
        | inr k ↦
            let same = timed-injective _ b1 _ c1 (rw k at e3) in
            fill-Stocked rest b1 buckets' c1 ctx' ps (rw (← same) h) e2
      ]

  find_partner-Both :
      (a : Order) (sell_a buy_a : ℤ) (others : List Order) (s : Matched) (ctx : Context)
      → P a
      → All P others
      → All Both s.out
      → All Both (find_partner a sell_a buy_a others s ctx).0.out
  unfolding find_partner
  find_partner-Both a sell_a buy_a [] s ctx p ps h = h
  find_partner-Both a sell_a buy_a (b ∷ rest) s ctx p (q, qs) h = elim (Option-cases (poll ctx)) [
    | inl e ↦ rw (find_partner, e) h
    | inr ((_, c1), e) ↦
        let go_past = find_partner-Both a sell_a buy_a rest s c1 p qs h in
        elim (Bool-cases (is_used b.uid s.used)) [
          | inl ub ↦ rw (find_partner, e, ub) go_past
          | inr ub ↦ elim (Option-cases (amounts_of b)) [
            | inl eb ↦ rw (find_partner, e, ub, eb) go_past
            | inr ((sell_b, buy_b), eb) ↦ elim (Bool-cases (crosses sell_a buy_a sell_b buy_b)) [
              | inr c ↦ rw (find_partner, e, ub, eb, c) go_past
              | inl c ↦ rw (find_partner, e, ub, eb, c) (All-append Both s.out _ h ((p, q), tt))
            ]
          ]
        ]
  ]

  match_orders-Both :
      (others mine : List Order) (s : Matched) (ctx : Context)
      → All P others
      → All P mine
      → All Both s.out
      → All Both (match_orders others mine s ctx).0.out
  unfolding match_orders
  match_orders-Both others [] s ctx ps qs h = h
  match_orders-Both others (a ∷ rest) s ctx ps (q, qs) h = elim (Option-cases (poll ctx)) [
    | inl e ↦ rw (match_orders, e) h
    | inr ((_, c1), e) ↦
        let go_past = match_orders-Both others rest s c1 ps qs h in
        elim (Bool-cases (is_used a.uid s.used)) [
          | inl ua ↦ rw (match_orders, e, ua) go_past
          | inr ua ↦ elim (Option-cases (amounts_of a)) [
            | inl ea ↦ rw (match_orders, e, ua, ea) go_past
            | inr ((sell_a, buy_a), ea) ↦
                rw (match_orders, e, ua, ea)
                  (walk_on-keeps (λ t. All Both t.out) (find_partner a sell_a buy_a others s c1)
                    (match_orders others rest) (find_partner-Both a sell_a buy_a others s c1 q ps h)
                    (λ s' c' h'. match_orders-Both others rest s' c' ps qs h'))
          ]
        ]
  ]

  match_keys-Both :
      (buckets : Buckets) (keys : List Key) (s : Matched) (ctx : Context)
      → Stocked buckets
      → All Both s.out
      → All Both (match_keys buckets keys s ctx).0.out
  unfolding match_keys
  match_keys-Both buckets [] s ctx b h = h
  match_keys-Both buckets (key ∷ rest) s ctx b h = elim (Option-cases (poll ctx)) [
    | inl e ↦ rw (match_keys, e) h
    | inr ((_, c1), e) ↦ elim (Bool-cases (text_ltb key.buy key.sell)) [
      | inl k ↦ rw (match_keys, e, k) (match_keys-Both buckets rest s c1 b h)
      | inr k ↦
          let opposite : Key = record { sell = key.buy; buy = key.sell } in
          let others = orders_at buckets opposite in
          rw (match_keys, e, k)
            (walk_on-keeps (λ t. All Both t.out) (match_orders others (orders_at buckets key) s c1)
              (match_keys buckets rest)
              (match_orders-Both others (orders_at buckets key) s c1
                (orders_at-All buckets opposite b) (orders_at-All buckets key b) h)
              (λ s' c' h'. match_keys-Both buckets rest s' c' b h'))
    ]
  ]

  -- What holds of every order holds of both orders of every match.
  pub find_cow_matches-Both :
      (orders : List Order) (ctx : Context) → All P orders → All Both (find_cow_matches orders ctx)
  find_cow_matches-Both orders ctx ps =
      find_cow_matches-keeps (All Both) orders ctx tt (λ buckets c1 e.
        match_keys-Both buckets (sorted_keys buckets) nothing_matched c1
          (fill-Stocked orders [] buckets ctx c1 ps tt e) tt)
