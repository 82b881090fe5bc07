-- ===== src/Report/Sums.antt =====
-- cmd/report/main.go: the sums printed side by side agree.
use aladdin_solver_engine.Prelude.{All, List, [], arith, map, ℤ, ◌+◌, ◌∷◌, ◌≡◌}
use aladdin_solver_engine.Solve.Context.{Context}
use aladdin_solver_engine.Solve.RouteOrder.{Config}
use aladdin_solver_engine.Solve.Engine.{Auction, solve}
use aladdin_solver_engine.Solve.Engine.Answer.{solve-IsCounted}
use aladdin_solver_engine.Report.{AuctionLine, Totals, add_line, no_totals, sum_lines}

-- The counts of a record agree.
abbrev pub Agrees : AuctionLine → Type 0
Agrees l = l.stats.candidate_solutions ≡ l.stats.cow_matches + l.stats.baseline_routes

abbrev pub TotalsAgree : Totals → Type 0
TotalsAgree t = t.total_candidates ≡ t.cows + t.routes

sum_lines-from :
    (ls : List AuctionLine) (t : Totals)
    → All Agrees ls
    → TotalsAgree t
    → TotalsAgree (sum_lines ls t)
unfolding sum_lines add_line
sum_lines-from [] t h k = k
sum_lines-from (l ∷ ls) t (h, hs) k = sum_lines-from ls (add_line l t) hs (omega (arith, h, k))

-- A run of the solver whose time is recorded.
pub record Solved : Type 0 where
  pub ctx : Context
  pub auction : Auction
  pub cfg : Config
  pub elapsed_ms : ℤ

abbrev pub line_of : Solved → AuctionLine
line_of s = record { elapsed_ms = s.elapsed_ms; stats = (solve s.ctx s.auction s.cfg).stats }

lines-Agrees : (runs : List Solved) → All Agrees (map line_of runs)
lines-Agrees [] = tt
lines-Agrees (s ∷ rest) = ((solve-IsCounted s.ctx s.auction s.cfg).0, lines-Agrees rest)

-- Of records that runs of the solver have left, the report prints as many candidates as matches and
-- routes together.
pub sum_lines-TotalsAgree :
    (runs : List Solved) → TotalsAgree (sum_lines (map line_of runs) no_totals)
sum_lines-TotalsAgree runs =
    sum_lines-from (map line_of runs) no_totals (lines-Agrees runs) (omega arith)
