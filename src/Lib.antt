-- ===== src/Lib.antt =====
-- A verification library for perpbot, a trading bot for perpetual futures: an order router for each
-- instrument, driven by a portfolio, behind risk guards, over an exchange that may time out, refuse, or fill
-- late.
--
-- The parts and the files that model them:
--   Execution/Types        polyperps/execution/types.py: states, intents, orders, fills, positions, rows
--   Execution/World        what a handler works on (router, stored rows, executor, clock) and the monad of
--                          handlers that may raise; Executor and Strategy are interfaces, records of calls
--   Execution/Router       InstrumentRouter of polyperps/execution/order_router.py: Rows (_persist,
--                          _set_state, _record, _update_order, _record_fill, _apply_fill, load_local), Stops
--                          (place_exchange_stop, replace_stop, halt, _adopt, _adopt_and_settle), Send
--                          (apply_guards, _send, _submit_with_recovery, _landed), Exits (_exit, shutdown,
--                          clear_halt, adopt_pending, check_pending), Bars (on_bar, on_fast), Events
--                          (handle_event), Handlers (a call as a value, and sequences of calls)
--   Execution/Portfolio    Portfolio of the same file: on_bar, _check_funding, _shutdown, on_fast, _dispatch
--                          (Drive) and _reconcile (Reconcile)
--   Execution/Reconciliation, Execution/ClientId
--                          diff of polyperps/execution/reconciliation.py; client order ids
--   Execution/SimExecutor  the paper account of polyperps/execution/sim_executor.py: Orders (submit, stops,
--                          funding), Venue (check_triggers, snapshot, the Executor instance); fill_cost of
--                          polyperps/backtest/costs.py
--   Execution/Recovery     recover of polyperps/execution/state_recovery.py
--   Execution/LiveExecutor polyperps/execution/live_executor.py: the tables and the reading side, Events, and
--                          the live and the shadow executor (Orders)
--   Execution/LiveBars     LiveBarBuilder of polyperps/execution/live_bars.py
--   Gates                  live_orders_allowed of polyperps/gates.py
--   Strategies             polyperps/strategies: Faded (FundingReversion, Basis, FundingCarry), Timed (IndexLag,
--                          LeadLag, Overshoot), Built (build_strategy, GRIDS and runs)
--   Backtest               Harness (run_backtest of polyperps/backtest/harness.py: the book, trade_to, mark; Turns:
--                          the loop), Bars (build_bars and align_pair of polyperps/backtest/bars.py)
--   Signal                 Approval (load_validated of polyperps/signal/base.py), Sufficiency (the bar of
--                          polyperps/signal/sufficiency.py, evaluate_run of polyperps/signal/validation_log.py)
--   Risk                   polyperps/risk: KillSwitch, LiquidationGuard, PortfolioExposure
--   Monitor                the alert record, thresholds and helpers of polyperps/monitor/alerts.py
--   Ingest, Exchange       check_tick of polyperps/data_ingest/filters.py, MarketFeed of
--                          polyperps/data_ingest/market_feed.py, and the tick that they read; TokenBucket of
--                          polyperps/exchange/rate_limiter.py, Client (the converters and Calls of
--                          polyperps/exchange/client.py);
--                          Ingest/Intervals is polyperps/data_ingest/intervals.py, Ingest/Backfill is
--                          scripts/backfill.py
--   Storage                polyperps/storage/db.py: the execution tables, Market (the market data tables), Rollup
--                          (the hourly readers; Writer: rollup_hours); Prune (scripts/prune.py), Gaps (find_gaps
--                          of polyperps/storage/gaps.py)
--   Trader                 scripts/run_trader.py: who owns a run id, build_executor, seed_history, Turns (one turn
--                          of each loop)
--   Dashboard              the numbers and the guards of polyperps/dashboard/state.py, Gaps (count_gaps)
--   Decimal, Base          decimal.Decimal in units of 10^-28, signed integers, lists, dicts
--   Tests                  concrete runs
--
-- A handler is a function from a world to a result and a world; what it wrote before it raised stays written.
-- Portfolio holds one lock in every public entry point, so calls are sequences. The executor and the
-- strategy are parameters: the router's theorems hold for every executor, whatever it answers and in
-- whatever order. The strategy's state is a field of the router. The clock is read once for a handler.
-- A timestamp is a number of microseconds.
--
-- Fuel: the digits of a number (Execution/ClientId) have the number itself, which is at least their count; a loop
-- over hours (Storage/Rollup/Hours) has the hours from its first to its last instant and one more; a loop over
-- windows of a day (Ingest/Backfill) the days and two more; a loop that deletes batches (Storage/Prune) the rows
-- and one more. Each is enough, and is proved to be. A query of the exchange (Exchange/Client/Calls) goes through
-- the list of its pages, so one whose pages never end is left out.
--
-- Not modelled: SQL, JSON, HTTP and file I/O, asyncio itself, the text of log lines and of alert details,
-- the session of the exchange's client library, the floating point statistics of the z-score and the parsing
-- of times (parameters), the statistics of a backtest, the files of the validation log, the Hyperliquid
-- client, keys and configuration, the decision trail, the texts, the feed health and the server of the
-- dashboard, and the other scripts.
pub mod Base
pub mod Dashboard
pub mod Decimal
pub mod Monitor
pub mod Risk
pub mod Storage
pub mod Exchange
pub mod Ingest
pub mod Execution
pub mod Gates
pub mod Strategies
pub mod Signal
pub mod Backtest
pub mod Trader
pub mod Tests
