-- ===== src/Lib.antt =====
-- Verification of the solver engine: a Go program that receives auctions over HTTP, quotes the
-- liquidity that comes with them and answers with proposed settlements.
--
-- Its parts are internal/amm (the quotes of the three kinds of pool), internal/solve (routes,
-- matches between orders, and the solutions of an auction), internal/api and internal/server (the
-- wire types, their validation, HTTP), internal/record (the log), internal/contract (checks of
-- captured traffic) and three commands. An auction goes from internal/server, which checks it with
-- internal/contract, to internal/solve, which asks internal/amm for a quote of each pool it
-- considers; the reply is checked with internal/contract again, and internal/record keeps the
-- auction and its solutions.
--
-- What is modelled, file by file:
--   Amm/U256.antt          internal/amm/u256.go: addU256, subU256, mulU256, divDownU256, divUpU256
--   Amm/Pool.antt          internal/amm/amm.go: Pool, Tick, AllTokens, Supports, Other
--   Amm/Constant.antt      quoteConstantProduct
--   Amm/Swap.antt          mulDiv, mulDivUp, amount0Delta, amount1Delta, nextSqrtFromInput,
--                          computeSwapStep
--   Amm/TickMath.antt      GetSqrtRatioAtTick
--   Amm/Concentrated.antt  feePips, quoteConcentrated
--   Amm/Stable.antt        internal/amm/stable.go: quoteStableIndexed, stableInvariant,
--                          stableBalanceGivenInvariant, fpMulDown, fpMulUp, fpDivDown, feeBfp
--   Amm/Quote.antt         QuoteExactIn, QuoteExactInPair, quoteStable
--   Solve/Context.antt     ctx.Err() and loops that may be given up
--   Solve/Gas.antt         internal/solve/route.go: sumGas
--   Solve/Route.antt       internal/solve/route.go: NewGraph, BestRouteContext, poolsFor, better
--   Solve/MinInput.antt    internal/solve/solve.go: minInputFor
--   Solve/Order.antt       internal/api/types.go: Order, Solution; internal/solve/solve.go: eligible
--   Solve/RouteOrder.antt  routeOrder, hopsToInteractions
--   Solve/Profit.antt      profitable, toNative, amountOrZero
--   Solve/Cow.antt         findCoWMatchesContext, cowProfitable, Match.solution
--   Solve/Liquidity.antt   internal/solve/pools.go: decimalDigits, parsePositiveUnsigned,
--                          parseSignedInteger; the JSON of a source's tokens
--   Solve/Pools.antt       BuildPoolsContext, buildPool; internal/amm/amm.go: SortTicks
--   Solve/Engine.antt      Solve, Stats, Result; internal/api/types.go: Auction
--   Amm/Decimal.antt       ParseDecimalRational
--   Json.antt              the values of JSON documents and their tokens
--   Json/Walk.antt         internal/contract/contract.go: ValidateUniqueJSON, walkJSONValue
--   Contract.antt and its children   internal/contract/contract.go: ValidateAuctionJSON,
--                          ValidateSolveResponseJSON, ValidateNotificationJSON
--   Api/Encode.antt        internal/api/types.go: the JSON of SolveResponse
--   Api/Notification.antt  Notification, NotificationSolutionID: their JSON, read and written
--   Api/Notification/Kinds.antt      internal/api/notification_validation.go
--   Api/Auction.antt       internal/api/auction_validation.go
--   Record.antt            internal/record/record.go: New, write, rotateLocked, Close
--   Server.antt            internal/server/server.go: validateAuction, validU256
--   Server/Handlers.antt   handleSolve, handleNotify, writeJSON
--   Report.antt            cmd/report/main.go: the sums, percentile and the order of the lines
-- The files below each of these hold their lemmas and theorems; Amm/Examples.antt,
-- Solve/Examples.antt, Api/Examples.antt, Server/Examples.antt and Report/Examples.antt hold runs.
-- Prelude and its children hold tests, lists, integers, texts and error results.
--
-- Conventions. A `*big.Int` is an integer ℤ over the native numbers, and a pointer that the source
-- may find nil is an `Option`; so is a slice whose nil the source tells from an empty one, as the
-- solutions of an auction are, which encode as null if they are nil. A function that returns an
-- error is a `Result`, with one constructor of `Error` for each error of the source; two more stand
-- for a fault of an index and for a return without value and error. Texts are lists of character
-- codes, and changes of case are those of ASCII.
--
-- Time and maps. A context is the number of looks at it that still find it alive, so every deadline
-- is one of these numbers; it is passed through the loops, and a loop that finds it done is given
-- up. A Go map is an association list in the order in which it is walked, and a pointer to a pool
-- is the pool with its address.
--
-- JSON and files. The bytes of a document are the value that they denote, if they denote one. What
-- json.Unmarshal stores in an Auction or a Notification, the bytes that json.Marshal makes of a
-- record, and the time that time.Parse reads are arguments of the handlers. A file is its path, and
-- what the operating system answers to each call is an argument of the call; the calls of one
-- recorder follow one another, as its mutex makes them.
--
-- Time that is left is an int64 of nanoseconds: it stops at both ends when a deadline is turned
-- into it, and wraps when the reserve of 200 milliseconds is taken off.
--
-- Bounds. Loops over lists are structural. The loops that the source bounds (512 steps of a
-- concentrated quote, 255 rounds of the stable mathematics, 256 of the search for an input) carry
-- that bound as their fuel; the binary search over ticks has as much fuel as there are ticks.
--
-- The walk over the tokens of a document has one round for each token and one more.
--
-- Not modelled: HTTP, the clock and processes, which are input and output; the decoding of the
-- fields of an auction, which is encoding/json alone; what cmd/report reads and prints; the
-- commands cmd/solver and cmd/contractcheck; scripts and deployment.

mod Prelude
pub mod Json
pub mod Contract
pub mod Amm
pub mod Solve
pub mod Api
pub mod Record
pub mod Server
pub mod Report
