-- ===== src/Report/Percentile.antt =====
-- cmd/report/main.go, percentile: the nearest rank.
use aladdin_solver_engine.Prelude.{
  List, [], arith, eqb_ℤ, false, get_elem?, get_or, leb_ℤ, length, pos, refl, some, suc, zero, ℕ, ℤ,
  ◌*◌, ◌-◌, ◌<◌, ◌∷◌, ◌≡◌, ◌≤◌,
}
use aladdin_solver_engine.Report.{percentile, rank_of}

-- The rank of a percentage: the least one that leaves at least this share of the numbers at or below
-- it.
abbrev pub IsNearest : ℕ → ℕ → ℕ → Type 0
IsNearest percent n rank =
    (0 < rank) × (rank ≤ n) × (percent * n ≤ 100 * rank) × (100 * (rank - 1) < percent * n)

share_below : (p n : ℕ) → p ≤ 99 → p * n ≤ 99 * n
share_below p zero h = omega arith
share_below p (suc n) h = let k = share_below p n h in omega (arith, k)

share_positive : (p n : ℕ) → 0 < p → 0 < n → 0 < p * n
share_positive zero n h k = absurd (omega arith)
share_positive (suc p) zero h k = absurd (omega arith)
share_positive (suc p) (suc n) h k = omega arith

rank_of-IsNearest : (p n : ℕ) → 0 < p → p ≤ 99 → 0 < n → IsNearest p n (rank_of p n)
rank_of-IsNearest p n h k l =
    let some_share = share_positive p n h l in
    let below = share_below p n k in
    (
      omega (arith, some_share),
      omega (arith, below),
      omega (arith, below),
      omega (arith, some_share),
    )

get_or-elem : (xs : List ℤ) (i : ℕ) (d : ℤ) → i < length xs → get_elem? xs i ≡ some (get_or xs i d)
get_or-elem [] i d h = absurd (omega arith)
get_or-elem (x ∷ xs) zero d h = refl
get_or-elem (x ∷ xs) (suc i) d h = get_or-elem xs i d (omega arith)

-- The percentile of a list that is not empty is its element of the nearest rank, for a percentage
-- between 1 and 99: the rank is within the list, at least this share of the positions are up to it,
-- and less than this share before it.
pub percentile-IsNearest :
    (x : ℤ) (xs : List ℤ) (p : ℕ)
    → 0 < p
    → p ≤ 99
    → (rank : ℕ) × IsNearest p (length (x ∷ xs)) rank
      × (get_elem? (x ∷ xs) (rank - 1) ≡ some (percentile (x ∷ xs) (pos p)))
unfolding percentile
percentile-IsNearest x xs p h k =
    let sorted = x ∷ xs in
    let near = rank_of-IsNearest p (length sorted) h k (omega arith) in
    let z : eqb_ℤ (pos p) (pos 0) ≡ false = ground arith in
    let w : leb_ℤ (pos 100) (pos p) ≡ false = ground arith in
    (
      rank_of p (length sorted),
      near,
      rw (z, w)
          (get_or-elem sorted (rank_of p (length sorted) - 1) (pos 0)
            (omega (arith, near.0, near.1))),
    )
