-- ===== src/Lib.antt =====
-- quantcortex: verification of the order path, the portfolio contracts and the risk overlays.
--
-- The program turns target weights into orders and keeps the books that result. A portfolio
-- optimizer returns a weight vector that the allocation contract checks; overlays scale or flatten
-- it under the exposure contract; the pre-trade gate checks weights and orders; the order manager
-- follows each order through its lifecycle; the position manager applies the fills that it reports.
-- In a simulation, the cost model caps and charges each rebalance. The paper-trading cycle submits
-- the orders of one rebalance to a broker, and keeps its ledger of attempts, with the orders and the
-- positions, in the state persistence.
--
-- Which file models which part:
--   * Execution/OrderManager: quantcortex/execution/order_manager.py. `Status` has the enums and the
--     table of transitions, `Order` the dataclass with `__post_init__` (`make_order`) and `validate`,
--     `Manager` the methods of `OrderManager` on a `Book`, a dict in order of insertion. A method
--     takes the book and returns a result or an exception, and the book that it left. Proofs:
--     `Outcomes` and `FillOutcomes` for what a call can come to, `Soundness` and `Lifecycle` for the
--     invariant, `Effects`, `Filled`, `FillEffects` and `Runs` for what calls do.
--   * Execution/Brokers/Base: quantcortex/execution/brokers/base.py, positions and account info.
--   * Execution/PositionManager: quantcortex/execution/position_manager.py. `Book` has `update` and
--     `update_fill`, `Valuation` the marks and exposures, `Sizing` `target_weights_to_orders`.
--   * Execution/PreTradeRisk: quantcortex/execution/pre_trade_risk.py. `Limits` has the constructor
--     and the violations, `Weights`, `Orders` and `PostTrade` the three checks, `Gate` `assert_safe`.
--   * Execution/StatePersistence: quantcortex/execution/state_persistence.py. `Codec` is the interface
--     of json, `Orders` and `Positions` the encoding of both (`_serialise_orders`,
--     `_deserialise_orders` and the like), `Snapshot` the execution snapshot and its revision, `Store`
--     the methods of `StatePersistence` on a `Backend`, Redis or a file, and `Save` those of the
--     snapshot. A method takes an `Io`, which says where the call of Redis or the file system fails; a
--     write of the file goes through the temporary file beside it, step by step (`replace_file`).
--     Proofs: `OrderRoundTrip`, `PositionRoundTrip`, `JsonSafe`, `SavedState` and `Reload` for what is
--     read back, `Revisions`, `Durable` and `Writers` for the snapshot's revision, `KeyValue` and
--     `Refinement` for the store as a map, `Failure` for a save that raises.
--   * Scripts/PaperCycle: scripts/paper_trade_cycle.py. `Intents` has the client order ids and the
--     ledger's records, `Session` the ledger and the snapshot's context, `Submit`
--     `_reconcile_or_submit`, `Cycle` `_initialise_submission_state` and `run_paper` from its store on.
--     `Triples` is the reasoning about methods that raise. `Ledger`, `Recorded`, `Once`, `Startup` and
--     `Cycles` lead to the theorem on client order ids, `Placing` and `Sends` to the one that an order
--     is sent.
--   * Portfolio: quantcortex/portfolio/base.py. `Contract` has the modes and the two contracts,
--     `Normalize` and `Projection` the helpers of the optimizers, `Optimizer` their base class;
--     `Brackets` shows where the bisection of the projection ends.
--   * Risk/CircuitBreaker: quantcortex/risk/circuit_breaker.py, the drawdown, the latch and `apply`;
--     `Overlay` and `Runs` for what it does.
--   * Risk/VolTargeting: quantcortex/risk/vol_targeting.py, the scale and `apply`; `Overlay` for what
--     it does.
--   * Backtest/Costs: quantcortex/backtest/costs/transaction_costs.py, the rates, the caps by volume
--     and by gross exposure, and `apply_costs`.
--   * Prelude and Python: lists, results and the parts of Python that the files above use.
--
-- Numbers and values. A Python float is a type `F` with the operations of `Python.Float.Float`; the
-- facts about IEEE-754 doubles that some proofs rest on are the record `IsFloat`, which each such
-- theorem takes by name. `Python/Float/Ticks` is an instance that runs, with a bounded range and one
-- value that is not finite; the examples use it. A dynamically typed argument is a `Value`: `None`, a
-- boolean, an integer, a float, a text, a list, a mapping or another object. The overflow of an integer
-- beyond the doubles, in a conversion to a float or an array, is not modelled. numpy is the record
-- `Python.Numpy.Numpy` of the functions that the program calls; sums keep numpy's order because they
-- are calls of it. Text case is the parameter `TextCase`. Exceptions are values, one constructor for
-- each class; their messages are not modelled.
--
-- The outside. The broker and the store of the paper-trading cycle are the interfaces `Broker` and
-- `SnapshotStore`: any answer, any exception, and the end of the process (`process_killed`) at any of
-- their calls. What the cycle relies on of its store is the record `IsDurable`. json is `Codec` with
-- the law `IsCodec`; the clock is an argument, and `fromisoformat` the parameter `Calendar`. The file's
-- lock and Redis's watch make a call of the store one step; a watched key that changes is an outcome
-- of the call. pandas' dates, sha256 and the float format are parameters of the client order id.
--
-- Loops are recursions on a list, but for two bisections, which recur on the number of rounds that
-- the source writes: 128 in `project_bounded_sum` and 64 in `apply_costs`.
--
-- Not modelled: the functions of quantcortex/portfolio/base.py on pandas frames, the optimizers'
-- solvers, the broker adapters, data providers and storage, the alpha, timing and strategy modules,
-- the backtest engines, and the other scripts. Most are calls of numpy, pandas, scipy or a vendor's
-- library, or input and output. Of the state persistence, the choice of a backend when the store is
-- made; of the paper-trading cycle, the prices, the offline walk, the checks before the store is
-- opened, a store that keeps no snapshots, and the printing.
pub mod Prelude
pub mod Python
pub mod Execution
pub mod Portfolio
pub mod Risk
pub mod Backtest
pub mod Scripts
