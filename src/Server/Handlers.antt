-- ===== src/Server/Handlers.antt =====
-- internal/server/server.go: the handler of an auction. What encoding/json and time do is given: the
-- value that `json.Unmarshal` stores, the bytes that `json.Marshal` makes of a record, the time that
-- a deadline denotes.
use aladdin_solver_engine.Prelude.{
  List, Option, Result, Text, [], err, if◌then◌else◌, ltb, ltb_ℤ, negsuc, non_positive, none, ok,
  pos, some, unexpected_end, ℕ, ℤ, ◌+ℤ◌, ◌-ℤ◌, ◌-◌, ◌>>=◌, ◌^◌,
}
use aladdin_solver_engine.Json.{Json, Raw}
use aladdin_solver_engine.Json.Walk.{validate_unique_json}
use aladdin_solver_engine.Contract.Notification.{validate_notification_json}
use aladdin_solver_engine.Contract.Auction.{validate_auction_json}
use aladdin_solver_engine.Contract.Response.{validate_solve_response_json}
use aladdin_solver_engine.Solve.Order.{Solution}
use aladdin_solver_engine.Solve.Context.{Context}
use aladdin_solver_engine.Solve.RouteOrder.{Config}
use aladdin_solver_engine.Solve.Engine.{Auction, SolveResult, or_nil, solve}
use aladdin_solver_engine.Api.Encode.{encode_response}
use aladdin_solver_engine.Record.{
  Answers, AuctionRecord, Recorder, auction_record, auctions_file, notifs_file, write,
}
use aladdin_solver_engine.Server.{validate_auction}

-- The body of a request: over the limit, not readable, or the document that it holds.
pub data Body : Type 0 where
  too_large unreadable : Body
  document : Raw → Body

-- The status and what follows it, if that is JSON.
pub record Response : Type 0 where
  pub status : ℕ
  pub content : Option Json

-- A status alone.
abbrev pub http_error : ℕ → Response
http_error status = record { status = status; content = none }

-- `writeJSON` of a `SolveResponse`: one that violates the contract is withheld.
unfoldable pub write_solutions : Option (List Solution) → Response
write_solutions solutions =
    let reply = encode_response solutions in
    elim (validate_solve_response_json (some reply)) [
      | err e ↦ http_error 500
      | ok u ↦ record { status = 200; content = some reply }
    ]

-- The clock, and what the operating system answers if the auction is recorded; the time is counted
-- in nanoseconds.
pub record Moment : Type 0 where
  pub now : ℤ
  pub elapsed_ms : ℤ
  pub timestamp : Text
  pub day : Text
  pub answers : Answers

-- 200 milliseconds.
abbrev pub reserve : ℤ
reserve = pos 200_000_000

-- `time.Until` stops at the ends of a `Duration`, which is an int64.
unfoldable pub saturate : ℤ → ℤ
saturate (pos n) = if ltb n (2 ^ 63) then pos n else pos (2 ^ 63 - 1)
saturate (negsuc n) = if ltb n (2 ^ 63) then negsuc n else negsuc (2 ^ 63 - 1)

-- An int64 of which 200 milliseconds are taken, which wraps.
unfoldable pub less_reserve : ℤ → ℤ
less_reserve d =
    let left = d -ℤ reserve in
    if ltb_ℤ left (negsuc (2 ^ 63 - 1)) then left +ℤ pos (2 ^ 64) else left

-- `time.Until(deadline) - 200*time.Millisecond`
unfoldable pub budget_of : ℤ → ℤ → ℤ
budget_of deadline now = less_reserve (saturate (deadline -ℤ now))

-- A nil slice of solutions is replaced by an empty one.
unfoldable pub without_nil : SolveResult → SolveResult
without_nil result = elim result.solutions [
  | none ↦ record result { solutions = some [] }
  | some solutions ↦ result
]

module _ (unmarshal : Json → Result Auction) (marshal : AuctionRecord → Result (List ℕ))
    (parse_time : Text → Option ℤ) where
  -- `decodeUniqueJSON` into an `Auction`.
  unfoldable pub decode_auction : Raw → Result Auction
  decode_auction none = err unexpected_end
  decode_auction (some j) = do
    _ ← validate_unique_json (some j)
    _ ← validate_auction_json (some j)
    unmarshal j

  -- `Recorder.Auction`: its error is written to the log only.
  unfoldable pub write_auction : Moment → Auction → SolveResult → Recorder → Recorder
  write_auction moment auction result r =
      let id : Text = or_nil auction.id in
      elim (marshal (auction_record r moment.timestamp id auction result moment.elapsed_ms)) [
        | err e ↦ r
        | ok bytes ↦ (write moment.answers auctions_file moment.day bytes r).recorder
      ]

  -- With a recorder only.
  unfoldable pub keep_record : Moment → Auction → SolveResult → Option Recorder → Option Recorder
  keep_record moment auction result none = none
  keep_record moment auction result (some r) = some (write_auction moment auction result r)

  -- The handler once the deadline is known.
  unfoldable pub answer_auction :
      Moment → Config → Auction → ℤ → Context → Option Recorder → Response × Option Recorder
  answer_auction moment cfg auction deadline ctx rec =
      if non_positive (budget_of deadline moment.now)
      then (write_solutions (some []), rec)
      else let result = without_nil (solve ctx auction cfg) in
        (write_solutions result.solutions, keep_record moment auction result rec)

  -- The context is that of the request, with the deadline.
  unfoldable pub handle_solve :
      Moment → Config → Body → Context → Option Recorder → Response × Option Recorder
  handle_solve moment cfg too_large ctx rec = (http_error 413, rec)
  handle_solve moment cfg unreadable ctx rec = (http_error 400, rec)
  handle_solve moment cfg (document raw) ctx rec = elim (decode_auction raw) [
    | err e ↦ (http_error 400, rec)
    | ok auction ↦ elim (validate_auction auction) [
      | err e ↦ (http_error 400, rec)
      | ok u ↦ elim (parse_time auction.deadline) [
        | none ↦ (http_error 400, rec)
        | some deadline ↦ answer_auction moment cfg auction deadline ctx rec
      ]
    ]
  ]

-- `Notification` is a type with its own JSON: the value read is any, and its record's bytes are given.
module _ {N : Type 0} (unmarshal : Json → Result N) (marshal : Text → N → Result (List ℕ)) where
  -- `decodeUniqueJSON` into a `Notification`.
  unfoldable pub decode_notification : Raw → Result N
  decode_notification none = err unexpected_end
  decode_notification (some j) = do
    _ ← validate_unique_json (some j)
    _ ← validate_notification_json (some j)
    unmarshal j

  -- `Recorder.Notification`.
  unfoldable pub write_notification : Moment → N → Recorder → Recorder
  write_notification moment notification r = elim (marshal moment.timestamp notification) [
    | err e ↦ r
    | ok bytes ↦ (write moment.answers notifs_file moment.day bytes r).recorder
  ]

  unfoldable pub handle_notify : Moment → Body → Option Recorder → Response × Option Recorder
  handle_notify moment too_large rec = (http_error 200, rec)
  handle_notify moment unreadable rec = (http_error 200, rec)
  handle_notify moment (document raw) none = (http_error 200, none)
  handle_notify moment (document raw) (some r) = elim (decode_notification raw) [
    | err e ↦ (http_error 200, some r)
    | ok notification ↦ (http_error 200, some (write_notification moment notification r))
  ]
