-- ===== src/Lib.antt =====
-- The order path of the trading backend: from a strategy's order through the live-trading gate to
-- the broker, and from the broker's answers back to orders, positions and alerts.
--
-- The parts, and the files that model them:
-- * Prelude, Dict, Values, Text, Floats: shared names; Python dicts with text keys; Python values
--   where the code distrusts a type; folded text; the operations on prices, as an interface.
-- * Risk/Sellable (backend/risk/sellable_qty.py): how much may be sold. `resolve_sellable`,
--   `validate_sell_qty` and `pending_sell_qty_from_rows` have their names.
-- * Risk/HaltPolicy (backend/risk/halt_policy.py): which operations a halt lets through, and
--   `prove_exit`, which uses Risk/Sellable on the broker's positions.
-- * Risk/KillSwitch (backend/risk/kill_switch.py): triggers, escalation, interception, resume.
-- * Brokers (backend/brokers/models.py, capabilities.py, validator.py): orders, positions,
--   capabilities, and the validator of order requests.
-- * Strategy (backend/strategy/base.py): Strategy/Gate is `_live_trade_allowed`, which asks the
--   halt policy; Strategy/Orders is `buy` and `sell`, which ask the gate and the validator.
-- * Execution/OrderMachine (backend/execution/order_machine.py): the order state machine.
-- * Execution/PositionTracker (backend/execution/position_tracker.py): positions and the pending
--   locks of symbols.
-- * Execution/OrderPoller (backend/execution/order_poller.py): the poller of live orders, its
--   health monitor and circuit breaker.
-- * Execution/OrderEvents (backend/execution/order_events.py): terminal events, which close an order
--   in the machine and give back its lock in the tracker.
-- * Execution/FailureBreaker (backend/execution/circuit_breaker.py): the pause after failures in a
--   row. Execution/FillReconciler (backend/execution/reconciliation.py): the fills table.
-- * Execution/PositionReconciler (backend/execution/reconciler.py): positions and open orders against
--   the broker. Positions and OrderPass are the two passes, Run is `reconcile`; Rows says what a pass
--   makes of one symbol's row. OrderPass takes the poller's `resync` as an argument.
-- * Execution/Idempotency (backend/execution/idempotency.py): fingerprints of orders, their store over
--   a cache and a table that may fail, the execution lock, and Verifier, which asks the broker.
-- * Data/Calendar (backend/data/calendar.py): the sessions of a trading day, and Permission, which
--   says whether an order may be sent. Its walks to another day look at 31 days, as the code's do.
-- * Data/CorporateActions (backend/data/corporate_actions.py and corporate_action_runtime.py): Detector
--   labels jumps, Service holds the pending actions and applies them, Runtime keeps a table beside it.
-- * Data/Freshness (backend/data/stale_detector.py and freshness_gate.py): when a feed was heard of, and
--   Gate, which lets an order through on data that is fresh enough.
-- * Market/Symbols (backend/market/symbols.py, backend/quant/data/universe.py): a symbol's exchange
--   and its names.
-- * Worker/PromotionGuard (backend/worker/promotion_guard.py): how long a paper run was up, and
--   whether it opens the gate to live trading.
-- * KisAdapter/Pagination (kis_adapter/pagination.py): inquiries that span several pages. Its loop
--   runs on the number of pages that it may still ask for, `max_pages` at the start.
--
-- How code becomes definitions. An object's state is a record, a method a function from the state
-- to its result and the new state; a lock that a method holds to its end makes it one step. A raise is
-- a constructor of a result type, or `none`. Callbacks and brokers are parameters: a
-- function, or for each call what it answered. Clock readings are arguments, in whole seconds
-- (microseconds in the promotion guard, the position reconciler and the calendar).
-- Quantities are integers; prices are any type with the operations of Floats, and no law of those
-- is used. A double is modelled where the code tests one: NaN, infinity, or sign, whole part and
-- whether it has a fraction; a whole number becomes a double by rounding half to even, in 972
-- halvings at most, which is enough below 2 ^ 1024, where Python raises instead. The other
-- loops are recursion on a list, but for the pagination's.
--
-- Not modelled: threads, log texts, the audit rows' content, the database and the network; the
-- HTTP API, the other adapters of the brokers, the quantitative and back-test code, the rest of
-- the worker and the frontend.
pub mod Prelude
pub mod Data
pub mod Dict
pub mod Values
pub mod Text
pub mod Risk
pub mod Brokers
pub mod Floats
pub mod Strategy
pub mod Execution
pub mod Worker
pub mod KisAdapter
pub mod Market
