-- ===== src/Server/Replies.antt =====
-- internal/server/server.go, handleSolve: the replies.
use aladdin_solver_engine.Prelude.{
  Bool-cases, List, Option, Option-cases, Result, Result-cases, Text, [], inl, inr, non_positive,
  ok, refl, some, ℕ, ℤ, ◌≡◌, ◌⊎◌,
}
use aladdin_solver_engine.Json.{Json}
use aladdin_solver_engine.Contract.Response.{validate_solve_response_json}
use aladdin_solver_engine.Solve.Order.{Solution}
use aladdin_solver_engine.Solve.Context.{Context}
use aladdin_solver_engine.Solve.RouteOrder.{Config}
use aladdin_solver_engine.Solve.Engine.{Auction, SolveResult, solve}
use aladdin_solver_engine.Solve.Engine.Answer.{IsServable, solve-valid}
use aladdin_solver_engine.Api.Encode.{encode_response}
use aladdin_solver_engine.Api.Encode.Valid.{encode_response-valid}
use aladdin_solver_engine.Record.{AuctionRecord, Recorder}
use aladdin_solver_engine.Server.{validate_auction}
use aladdin_solver_engine.Server.Handlers.{
  Body, Moment, Response, answer_auction, budget_of, decode_auction, document, handle_solve,
  http_error, too_large, unreadable, without_nil, write_solutions,
}

-- The reply carries solutions, and its JSON passes the check of the contract.
abbrev pub Serves : Response → Type 0
Serves reply =
    (reply.status ≡ 200)
    × ((solutions : List Solution) × (reply.content ≡ some (encode_response (some solutions)))
        × (validate_solve_response_json (some (encode_response (some solutions))) ≡ ok tt))

write_solutions-Serves :
    (solutions : List Solution)
    → validate_solve_response_json (some (encode_response (some solutions))) ≡ ok tt
    → Serves (write_solutions (some solutions))
unfolding write_solutions
write_solutions-Serves solutions h = rw (write_solutions, h) (refl, (solutions, refl, h))

without_nil-Serves :
    (result : SolveResult)
    → IsServable result.solutions
    → Serves (write_solutions (without_nil result).solutions)
unfolding without_nil
without_nil-Serves result (inl (e, _)) =
    rw (without_nil, e) (write_solutions-Serves [] (encode_response-valid [] tt))
without_nil-Serves result (inr (listed, e, h)) =
    rw (without_nil, e, e) (write_solutions-Serves listed h)

-- A reply is one of three: the body is too large; the request is refused; or solutions are served.
abbrev pub Replies : Body → Response → Type 0
Replies body reply =
    ((reply ≡ http_error 413) × (body ≡ too_large)) ⊎ ((reply ≡ http_error 400) ⊎ Serves reply)

module _ (unmarshal : Json → Result Auction) (marshal : AuctionRecord → Result (List ℕ))
    (parse_time : Text → Option ℤ) where
  answer_auction-Serves :
      (moment : Moment) (cfg : Config) (auction : Auction) (deadline : ℤ) (ctx : Context)
      (rec : Option Recorder)
      → Serves (answer_auction unmarshal marshal parse_time moment cfg auction deadline ctx rec).0
  unfolding answer_auction
  answer_auction-Serves moment cfg auction deadline ctx rec =
      elim (Bool-cases (non_positive (budget_of deadline moment.now))) [
        | inl e ↦ rw (answer_auction, e) (write_solutions-Serves [] (encode_response-valid [] tt))
        | inr e ↦
            rw (answer_auction, e)
              (without_nil-Serves (solve ctx auction cfg) (solve-valid ctx auction cfg))
      ]

  -- Whatever the body, the configuration and the deadline, and whatever encoding/json and time
  -- answer, the reply is 413 for a body over the limit, 400 for one that is refused, or 200 with
  -- solutions whose JSON passes the check of the contract: the server never replies 500.
  pub handle_solve-Replies :
      (moment : Moment) (cfg : Config) (body : Body) (ctx : Context) (rec : Option Recorder)
      → Replies body (handle_solve unmarshal marshal parse_time moment cfg body ctx rec).0
  unfolding handle_solve
  handle_solve-Replies moment cfg too_large ctx rec = inl (refl, refl)
  handle_solve-Replies moment cfg unreadable ctx rec = inr (inl refl)
  handle_solve-Replies moment cfg (document raw) ctx rec =
      elim (Result-cases (decode_auction unmarshal marshal parse_time raw)) [
        | inl (problem, d) ↦ rw (handle_solve, d) (inr (inl refl))
        | inr (auction, d) ↦ elim (Result-cases (validate_auction auction)) [
          | inl (problem, v) ↦ rw (handle_solve, d, v) (inr (inl refl))
          | inr (u, v) ↦ elim (Option-cases (parse_time auction.deadline)) [
            | inl t ↦ rw (handle_solve, d, v, t) (inr (inl refl))
            | inr (deadline, t) ↦
                rw (handle_solve, d, v, t)
                  (inr (inr (answer_auction-Serves moment cfg auction deadline ctx rec)))
          ]
        ]
      ]
