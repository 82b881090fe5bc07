-- ===== src/Report.antt =====
-- cmd/report/main.go: what is printed about the recorded auctions: the sums, the ranks and the order
-- of the lines.
pub mod Percentile
pub mod Sums
mod Examples
use aladdin_solver_engine.Prelude.{
  Bool, List, Text, [], abs, eqb_ℤ, get_or, if◌then◌else◌, leb_ℤ, length, ltb, ltb_ℤ, negative, not,
  pos, text_ltb, ℕ, ℤ, ◌*◌, ◌++◌, ◌+◌, ◌-◌, ◌/◌, ◌==◌, ◌||◌, ◌∷◌,
}
use aladdin_solver_engine.Solve.Pools.{Skipped, add_skipped}
use aladdin_solver_engine.Solve.Engine.{Stats}

-- The part of a record that the report reads.
pub record AuctionLine : Type 0 where
  pub elapsed_ms : ℤ
  pub stats : Stats

pub record Totals : Type 0 where
  pub with_solution : ℕ
  pub total_orders : ℕ
  pub total_candidates : ℕ
  pub total_solutions : ℕ
  pub cows : ℕ
  pub routes : ℕ
  pub unsupported : ℕ
  pub no_route : ℕ
  pub limit : ℕ
  pub unprofitable : ℕ
  pub latencies : List ℤ
  pub skipped_pools : Skipped

abbrev pub no_totals : Totals
no_totals = record {
  with_solution = 0;
  total_orders = 0;
  total_candidates = 0;
  total_solutions = 0;
  cows = 0;
  routes = 0;
  unsupported = 0;
  no_route = 0;
  limit = 0;
  unprofitable = 0;
  latencies = [];
  skipped_pools = [];
}

-- The loop over the counts of a record.
unfoldable pub add_counts : Skipped → Skipped → Skipped
add_counts [] all = all
add_counts ((kind, count) ∷ rest) all = add_counts rest (add_skipped all kind count)

-- The body of the loop over the records.
unfoldable pub add_line : AuctionLine → Totals → Totals
add_line l t = record {
  with_solution = if ltb 0 l.stats.solutions then t.with_solution + 1 else t.with_solution;
  total_orders = t.total_orders + l.stats.orders;
  total_candidates = t.total_candidates + l.stats.candidate_solutions;
  total_solutions = t.total_solutions + l.stats.solutions;
  cows = t.cows + l.stats.cow_matches;
  routes = t.routes + l.stats.baseline_routes;
  unsupported = t.unsupported + l.stats.dropped_unsupported_order;
  no_route = t.no_route + l.stats.dropped_no_route;
  limit = t.limit + l.stats.dropped_limit;
  unprofitable = t.unprofitable + l.stats.dropped_not_profitable;
  latencies = t.latencies ++ (l.elapsed_ms ∷ []);
  skipped_pools = add_counts l.stats.pools_skipped t.skipped_pools;
}

unfoldable pub sum_lines : List AuctionLine → Totals → Totals
sum_lines [] t = t
sum_lines (l ∷ rest) t = sum_lines rest (add_line l t)

unfoldable pub insert_latency : ℤ → List ℤ → List ℤ
insert_latency x [] = x ∷ []
insert_latency x (y ∷ ys) =
    let ys' = insert_latency x ys in if ltb_ℤ y x then y ∷ ys' else x ∷ y ∷ ys

-- `sort.Slice` of the latencies, which are numbers.
unfoldable pub sort_latencies : List ℤ → List ℤ
sort_latencies [] = []
sort_latencies (x ∷ xs) = insert_latency x (sort_latencies xs)

-- The greater count first; of equal ones, the smaller kind.
unfoldable pub prints_before : Text × ℕ → Text × ℕ → Bool
prints_before (kind, count) (kind', count') =
    if not (count == count') then ltb count' count else text_ltb kind kind'

unfoldable pub insert_count : Text × ℕ → Skipped → Skipped
insert_count e [] = e ∷ []
insert_count e (f ∷ fs) =
    let fs' = insert_count e fs in if prints_before f e then f ∷ fs' else e ∷ f ∷ fs

-- The lines of the kinds, which differ.
unfoldable pub sort_counts : Skipped → Skipped
sort_counts [] = []
sort_counts (e ∷ es) = insert_count e (sort_counts es)

-- The rank of a percentage between 1 and 99, from 1.
abbrev pub rank_of : ℕ → ℕ → ℕ
rank_of percent n = (percent * n + 99) / 100

unfoldable pub percentile : List ℤ → ℤ → ℤ
percentile [] percent = pos 0
percentile (x ∷ xs) percent =
    let sorted = x ∷ xs in
    if negative percent || eqb_ℤ percent (pos 0)
    then x
    else if leb_ℤ (pos 100) percent
    then get_or sorted (length sorted - 1) (pos 0)
    else get_or sorted (rank_of (abs percent) (length sorted) - 1) (pos 0)
