-- ===== src/Lib.antt =====
-- Joinanny, a trading bot in Go: a user's command becomes an intent, the intent a confirmation, and a
-- confirmed intent an order on the user's exchange account. A monitor tightens the stops of the open
-- positions, a campaign trades towards a goal by rules, missions wait for a setup and close at the end
-- of their plans, and a journal records each trade.
--
-- The parts and their files:
--
--   Base: shared tests, lists, integers, texts and tables. Base/Table is a Go map with string keys,
--   as an association list; Base/Rows changes rows in place.
--
--   Decimal: internal/decimal/decimal.go. A `Decimal` is its `value`, `none` for the nil pointer, and
--   its `scale`. `add`, `sub`, `mul`, `cmp`, `quo_floor`, `floor_to_step` are the methods of these
--   names. `coeff_at n` (Decimal/Scale) reads a decimal in units of 10^-n; the theorems in
--   Decimal/Arithmetic, Decimal/Normal, Decimal/Division, Decimal/Quotient and Decimal/Order speak of
--   these readings.
--
--   Domain: internal/domain/intent.go and position.go.
--
--   Monitor/Trailing: internal/monitor/trailing.go, `ComputeStop`, with its guarantees in
--   Monitor/Trailing/Ratchet. Monitor/Tick: `Tick` of internal/monitor/runner.go over an exchange that
--   is a record of operations on a world. Monitor/Users: internal/monitor/multi.go.
--
--   Campaign: internal/campaign/campaign.go (Campaign, Campaign/Rules), simulate.go (Campaign/Preview)
--   and engine.go (Campaign/Engine). A run of the engine reads a list of rounds, the answers of the
--   world to one turn of its loop; it is `waiting` where the list ends before the run does.
--
--   Journal: internal/journal/journal.go and memory.go, and Journal/Report: report.go.
--
--   Orders/Store: `MemoryStore` of internal/orders/service.go, one function for each of `Put`, `Get`,
--   `TakeForExecution`, `Complete`, `Fail` and `Cancel`, and Orders/Store/Views the abstract store that
--   it implements. Orders/Service and its modules Prepare and
--   Confirm: `prepare`, `confirm` and `Cancel` of the service. The effects of a call are a list: the
--   order sent to an executor, the statuses and the audit events.
--
--   Missions/Armed and Missions/Closes: the in-memory stores of internal/api/armed_mission.go and
--   internal/api/scheduled_close.go.
--
--   Binance: internal/exchange/binance/executor.go. A function of the executor is an `Exec`: it changes
--   a state and returns a result or an error, and the state stays changed where it returns an error. The
--   state is a world, the calls made so far with the word whether each was accepted, and the cache of the
--   filters. Binance/Request has `do`, `signedRequest` and the functions of one request; Filters and
--   Quantity the rules of a symbol; Entry, Opening and Rollback are `makerFirstEntry`, `executeOpen`,
--   `rollbackOpen` and `flattenPosition`; Closing is `executeClose`, Stops `CurrentStop` and
--   `MoveStopLoss`, Realized `RealizedTrade`, Executor `Execute` and `Positions`. Provider is provider.go,
--   an executor for each user. The exchange itself, the clock, the waits and the decoding of answers are a
--   `Network`, an argument of all of them.
--
--   Parser: internal/parser/parser.go, `Parse` with its commands (Parser, Parser/Commands). Numbers are
--   read by Decimal/Text; letters and digits are the ASCII ones.
--
--   Tests: the theorems at concrete inputs.
--
-- How the parts meet: Parser makes the intents that Orders/Service turns into confirmations and
-- Binance carries out, by the executor that Binance/Provider finds for the user; Campaign,
-- Monitor, Journal and Orders compute with Decimal; Orders/Service hands the results of
-- executions to the journal; a mission keeps the id of the confirmation that entered for it, and
-- a scheduled close waits for that confirmation.
--
-- Bounds and fuel. The loops recurse on lists of positions, rounds, calls, rows or trades, the preview on
-- the number of trades left of its cap of 1000, and the printing of digits on the number printed. The
-- polls of `makerFirstEntry` take fuel, one round for each 200 milliseconds of the timeout and two more,
-- and answer `out_of_rounds` without it; Binance/Entry/Rounds is about that. The amounts are big
-- integers in the source, so they have no bound here. Scales, times (nanoseconds since the zero time)
-- and counts are natural numbers: the source makes no negative ones. User ids are natural numbers where
-- they are only compared; the journal's test that they are positive is the test for 0. The seconds of a
-- window become nanoseconds in 64 bits with a sign, wrap-around included.
--
-- What is not modelled: the mutexes (each call of a store is one step), logging, the random ids and the
-- clock, which are arguments; the Mongo stores, which are queries; the encoding and the signature of
-- the exchange's addresses; HTTP, Telegram, the language models and the configuration; the parts that compute with
-- floating point (indicators, strategy, backtest, paper runs). Of the files above the
-- texts of messages, the JSON codec of decimals, `EstimateTrades`, `IntentHash`, the lists and the handlers of the missions and the endless
-- polling loops are left out.
pub mod Base
pub mod Decimal
pub mod Domain
pub mod Monitor
pub mod Binance
pub mod Campaign
pub mod Missions
pub mod Orders
pub mod Parser
pub mod Journal
pub mod Tests
