-- ===== src/Lib.antt =====
-- A model of the trading path of Kalshi Copilot: what the backend does between a proposal and an
-- order, and with the fills and settlements that come back.
--
-- The program. A scanner or the operator has a proposal written (backend/app/trading/proposals.py,
-- priced by pricing.py and sized by sizing.py): a market, a side and an action, a size, a limit
-- price, an expiry, possibly several legs. It waits in a queue until it is decided or expires.
-- Someone approves it: the operator by a request, with the target typed on the live route, or the
-- machine, with a consent that the gate of backend/app/trading/autonomy.py issues for this one
-- proposal and this one route, while its sweep goes over the pending proposals. The method
-- approve_and_execute of Executor (backend/app/trading/executor.py) is the way from a proposal to
-- an order. It runs check_execution of backend/app/trading/interlocks.py and guard_approval of
-- backend/app/trading/risk.py, writes the approval in the audit log, and places the legs: on the
-- paper simulator (backend/app/trading/paper.py) against a book of
-- backend/app/kalshi/orderbook.py, or on the exchange after a translation to its single YES book
-- (backend/app/trading/direction.py). Fills pay the fee of backend/app/core/fees.py and change the
-- ledgers of backend/app/trading/positions.py; a settled market closes positions through
-- backend/app/trading/settlements.py. The tables of backend/app/db/models.py are the state that
-- all of them share: the risk guard and the budget of the machine are read back from rows that the
-- executor has written. The books are kept by backend/app/ingest/streams.py from the messages of
-- backend/app/kalshi/ws.py.
--
-- The files.
--   Base           shared helpers: tests on numbers (Base/Tests), signed integers (Base/Int), lists
--                  (Base/Lists), texts (Base/Text), dicts (Base/Dict), and a call that returns or raises
--                  (Base/Outcome).
--   Domain         the enums of backend/app/db/models.py and the units of backend/app/core/money.py.
--   Settings       the fields of backend/app/settings.py and backend/app/config.py that an approval
--                  reads, and the codes of its refusals.
--   Interlocks     backend/app/trading/interlocks.py: resolve_route, the consent of the machine,
--                  check_execution and posture.
--   Direction      backend/app/trading/direction.py: book_side, signed_contracts, to_yes_price and
--                  from_yes_price.
--   Fees           backend/app/core/fees.py: the schedule and its multipliers, taker_fee_cents,
--                  maker_fee_cents, round_trip_cost_cents and net_edge_cents.
--   Book           backend/app/kalshi/orderbook.py: a book as a record, apply_snapshot, apply_delta,
--                  mark_stale, the sorted levels, the best prices and executable_cost.
--   Paper          backend/app/trading/paper.py: levels_for and simulate_fills.
--   Positions      backend/app/trading/positions.py: realized_from_fill.
--   Ledger         the rows of a position and of a day, apply_fill and roll_daily of positions.py.
--   Settlements    backend/app/trading/settlements.py: payouts, realized_from_settlement,
--                  apply_settlement and the passes over local and exchange settlements.
--   Store          the tables of backend/app/db/models.py in one record.
--   Exposure       position_cost_cents of backend/app/trading/risk.py, and the capital at risk of a
--                  route and of a market.
--   Risk           the rest of risk.py: the daily loss, the losing streak, the limits, guard_approval;
--                  the same measures read off the tables without it (Risk/AtRisk).
--   Autonomy       backend/app/trading/autonomy.py: the evidence bar, the budget of the day, the
--                  latch, the consent, and evaluate.
--   Wire           the requests that executor.py sends to the exchange and the answers it reads.
--   Executor       executor.py: order rows (Executor), _place_legs (Executor/Legs),
--                  approve_and_execute (Executor/Approval), cancel, and the status after a fill.
--   Sweep          the sweep of autonomy.py: the pending proposals put before the gate in the order of
--                  their creation, and to the executor with the consent that the gate issues.
--   Sizing         backend/app/trading/sizing.py: full_kelly_fraction and recommend_size.
--   Pricing        backend/app/trading/pricing.py: price_ticket and the quote that it returns.
--   Proposals      backend/app/trading/proposals.py: the guards and create_proposal; the creation of a
--                  set of legs (Proposals/Sets), expire_stale and reject (Proposals/Decisions), and the
--                  runs of all of them with approvals as a step relation (Proposals/Lifecycle).
--   Arbitrage      backend/app/detectors/set_arbitrage.py: the books of the legs, walk, price_set and
--                  max_executable_sets; the parts a walk takes, level by level (Arbitrage/Taken).
--   Stats          backend/app/backtest/stats.py: verdict and max_drawdown.
--   Socket         backend/app/kalshi/ws.py: the frames of the websocket and the sequence numbers of its
--                  subscriptions.
--   Ingest         backend/app/ingest/normalize.py and streams.py: trades, tickers and candles; the
--                  StreamProcessor (Ingest/Streams) and its flush (Ingest/Flush).
--   Samples        settings and rows that several modules of runs share.
-- A child module is named for what it is about; X/Tests holds runs of X on concrete inputs.
--
-- The correspondence. A Python dataclass or ORM row is a record with the same field names, an Enum or
-- Literal a data type, a method a function with the same name. A method that assigns to its object
-- or to the session takes the old state and returns the new one; where it raises after it has
-- assigned, the new state is returned together with the error, since nothing is rolled back there.
-- A method that raises returns Outcome, or a result type of its own with one constructor for each
-- end. A dict is an association list, a query a search or a sum over a table. Awaits run in the
-- order of the code, one approval at a time: the row lock of `SELECT ... FOR UPDATE` on the proposal
-- is what lets one approval at a time read and write its row.
--
-- Units. Decimals are integers in a stated unit, so that nothing is rounded that the code does not
-- round: prices in microdollars (PRICE_QUANTUM), contract counts in hundredths (COUNT_QUANTUM), money
-- in microcents, fees in centicents, rates in ten-thousandths, fractions of the configuration in
-- millionths, times in microseconds. An average or a pro-rated amount that the code divides is kept
-- as an exact quotient, or the comparison is multiplied out. Amounts have no upper bound, as Decimal
-- and int have none at these sizes. Signed amounts are integers over the native numbers.
--
-- Loops. Every loop of the code goes over a list (levels, legs, fills, rows, settlements, frames) and
-- is structural recursion over it; there is no fuel. Of the loops that never end, those of the
-- websocket, its consumer and the flusher, the model has the body: a connection, a frame, a flush.
--
-- Parameters, which stand for what is outside the repository:
--   Files          whether a path of the configuration (a private key) is a file.
--   Rest           what the exchange answers to an order or to a cancellation, an error included.
--   Costs          the fee of one fill by its ticker, as the executor reads it off the schedule.
--   markets        the row of the catalog for a ticker, a field of Desk, beside the fee schedule.
--   Sweeper        what each step of a pass meets outside: the kill switch and the clock at an approval,
--                  whether Redis answers a read of the latch, and whether it takes the write of it.
--   the report card and the coverage that a refresh of the evidence reads, the time, the id of an
--                  executor, and what Redis holds of the latch, as arguments.
--
-- Not modelled:
--   * of autonomy.py, what is published on Redis for display; the report card and the coverage that a
--     refresh of the evidence reads are parameters;
--   * the other detectors and the scanners that ask for proposals, and the strings of a ticket that
--     are no number, which raise before anything is priced;
--   * the client of the exchange (HTTP, signatures, rate limits, the socket itself), the catalog and
--     the feeds of backend/app/ingest, the workers, the HTTP API, the intervals,
--     replay, coverage and report of backend/app/backtest, and the frontend: input and output, floating
--     point, or clients of the parts above;
--   * the rounding of Numeric columns by the database, log lines, and notices published on Redis;
--   * floats of the configuration other than as exact millionths, and strings that are no value of
--     their enum, which the API's validation refuses;
--   * a candle period of zero seconds, on which the code raises, and errors of the exchange's client
--     other than its own, while the executor reads a book;
--   * the uuid of an order, which is the data it is derived from.
pub mod Base
pub mod Domain
pub mod Direction
pub mod Fees
pub mod Book
pub mod Paper
pub mod Positions
pub mod Settings
pub mod Interlocks
pub mod Ledger
pub mod Settlements
pub mod Store
pub mod Exposure
pub mod Risk
pub mod Autonomy
pub mod Wire
pub mod Executor
pub mod Sweep
pub mod Sizing
pub mod Pricing
pub mod Proposals
pub mod Arbitrage
pub mod Stats
pub mod Socket
pub mod Ingest
pub mod Samples
