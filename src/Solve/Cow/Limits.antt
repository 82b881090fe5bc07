-- ===== src/Solve/Cow/Limits.antt =====
-- internal/solve/solve.go, findCoWMatchesContext: what every match found satisfies.
use aladdin_solver_engine.Prelude.{
  All, List, Option-cases, Text, [], false, inl, inr, leb_ℤ, none, some, text_eq, true, ℤ, ◌∷◌, ◌≡◌,
}
use aladdin_solver_engine.Solve.Context.{Context, fold_timed}
use aladdin_solver_engine.Solve.Order.{Order, amounts_of}
use aladdin_solver_engine.Solve.Cow.{
  Buckets, Match, Matched, Walked, fill_bucket, find_cow_matches, find_matches, is_used, match_keys,
  nothing_matched, sorted_keys, walk_on,
}

-- Each order of the match receives at least what it asks for, and the other one sells just that.
abbrev pub Fair : Match → Type 0
Fair m =
    (buy_a : ℤ) × (buy_b : ℤ) × (amounts_of m.a ≡ some (m.sell_a, buy_a))
    × (amounts_of m.b ≡ some (m.sell_b, buy_b))
    × (leb_ℤ buy_a m.sell_b ≡ true)
    × (leb_ℤ buy_b m.sell_a ≡ true)

-- No order is in both matches.
abbrev pub Disjoint : Match → Match → Type 0
Disjoint m n =
    (text_eq m.a.uid n.a.uid ≡ false)
    × (text_eq m.a.uid n.b.uid ≡ false)
    × (text_eq m.b.uid n.a.uid ≡ false)
    × (text_eq m.b.uid n.b.uid ≡ false)

abbrev pub Separate : List Match → Type 0
Separate [] = Unit
Separate (m ∷ ms) = All (Disjoint m) ms × Separate ms

abbrev Known : List Text → Match → Type 0
Known used m = (is_used m.a.uid used ≡ true) × (is_used m.b.uid used ≡ true)

-- The matches so far are fair and separate, and their orders are marked.
abbrev Sound : Matched → Type 0
Sound s = All Fair s.out × Separate s.out × All (Known s.used) s.out

abbrev AllSound : List Match → Type 0
AllSound ms = All Fair ms × Separate ms

pub walk_on-keeps :
    (P : Matched → Type 0) (w : Walked) (f : Matched → Context → Walked)
    → P w.0
    → ((s : Matched) (ctx : Context) → P s → P (f s ctx).0)
    → P (walk_on w f).0
walk_on-keeps P (s, none) f p k = p
walk_on-keeps P (s, some ctx) f p k = k s ctx p

-- What holds of no matches, and of those that the loop over the keys finds, holds of the matches.
pub find_cow_matches-keeps :
    (P : List Match → Type 0) (orders : List Order) (ctx : Context)
    → P []
    → ((buckets : Buckets) (c1 : Context)
        → fold_timed fill_bucket orders [] ctx ≡ some (buckets, c1)
        → P (match_keys buckets (sorted_keys buckets) nothing_matched c1).0.out)
    → P (find_cow_matches orders ctx)
unfolding find_matches
find_cow_matches-keeps P orders ctx p q =
    elim (Option-cases (fold_timed fill_bucket orders [] ctx)) [
      | inl e ↦ rw (find_cow_matches, find_matches, e) p
      | inr ((buckets, c1), e) ↦ rw (find_cow_matches, find_matches, e) (q buckets c1 e)
    ]
