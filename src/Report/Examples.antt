-- ===== src/Report/Examples.antt =====
-- Runs of the report on small records.
use aladdin_solver_engine.Prelude.{
  [], arith, codes, false, get_elem?, length, map, none, pos, refl, some, ℕ, ◌-◌, ◌∷◌, ◌≡◌,
}
use aladdin_solver_engine.Solve.Context.{background}
use aladdin_solver_engine.Solve.RouteOrder.{default_config}
use aladdin_solver_engine.Record.{Answers, Recorder, auctions_file, path_of, write}
use aladdin_solver_engine.Record.Succeeds.{write-succeeds}
use aladdin_solver_engine.Report.{no_totals, percentile, sum_lines}
use aladdin_solver_engine.Report.Percentile.{IsNearest, percentile-IsNearest}
use aladdin_solver_engine.Report.Sums.{Solved, TotalsAgree, line_of, sum_lines-TotalsAgree}

percentile-IsNearest_example :
    (rank : ℕ) × IsNearest 95 (length (pos 3 ∷ pos 5 ∷ pos 9 ∷ [])) rank
    × (get_elem? (pos 3 ∷ pos 5 ∷ pos 9 ∷ []) (rank - 1)
        ≡ some (percentile (pos 3 ∷ pos 5 ∷ pos 9 ∷ []) (pos 95)))
percentile-IsNearest_example =
    percentile-IsNearest (pos 3) (pos 5 ∷ pos 9 ∷ []) 95 (omega arith) (omega arith)

abbrev empty_run : Solved
empty_run = record {
  ctx = background;
  auction = record {
    id = none;
    tokens = some [];
    orders = some [];
    liquidity = some [];
    effective_gas_price = codes "1";
    deadline = [];
    surplus_capturing_jit_order_owner = some [];
  };
  cfg = default_config;
  elapsed_ms = pos 4;
}

sum_lines-TotalsAgree_example :
    TotalsAgree (sum_lines (map line_of (empty_run ∷ empty_run ∷ [])) no_totals)
sum_lines-TotalsAgree_example = sum_lines-TotalsAgree (empty_run ∷ empty_run ∷ [])

abbrev yesterday : Recorder
yesterday = record {
  dir = codes "log";
  day = codes "2026-08-16";
  auctions = some (path_of (codes "log") auctions_file (codes "2026-08-16"));
  notifs = none;
  keep_auctions = false;
}

abbrev all_well : Answers
all_well = record {
  closing = record { close_auctions = none; close_notifs = none };
  open_file = none;
  chmod = none;
  written = 3;
  write_error = none;
  close_failed = none;
}

write-succeeds_example :
    (write all_well auctions_file (codes "2026-08-17") (codes "{}") yesterday).errors ≡ []
write-succeeds_example =
    write-succeeds all_well auctions_file (codes "2026-08-17") (codes "{}") yesterday
      (refl, refl, refl, refl, refl, refl)
