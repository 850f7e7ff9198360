-- ===== src/Lib.antt =====
-- Verification library of the trading platform's pre-trade risk controls, replay and gateways.
--
-- The program. A strategy's order intent goes through the pre-trade risk check
-- (src/ta_model/risk/engine.py, `evaluate_pre_trade_risk`): 23 limits are evaluated over the
-- request, the policy and the instrument master, and the outcome is an event that rejects the order,
-- approves it, cuts it to what the soft limits allow, or does not trade it. The request carries a
-- snapshot of the kill switch, which the durable store (src/ta_model/risk/kill_switch.py) reads from a
-- log of transitions. The data types and their validators are in src/ta_model/contracts/.
--
-- Approved orders are replayed against historical bars (src/ta_model/simulation/replay.py,
-- `replay_ohlctv_market_orders`) with latency, costs, liquidity, exchange constraints and simulated
-- balances. src/ta_model/risk/replay.py forwards only approved intents to the replay, and the simulator
-- and paper gateways (src/ta_model/execution/gateway.py) run it and report one lifecycle event for each
-- risk check.
--
-- The files.
--   * Base: lists, dictionaries in insertion order, stable sorting, integers and Boolean equality over
--     the native numbers, and the library names that all files use.
--   * Decimal: Python's decimal.Decimal with 28 digits and ROUND_HALF_EVEN, which the risk check
--     computes with; Order, Sign and Rounding prove what rounding keeps (orders and signs of sums);
--     HalfEven, Digits, Representable, Bounds and Difference bound rounded products and sums.
--   * Contracts: the types and validators of contracts/risk.py and, as far as the other parts read
--     them, of instrument_master.py, market_data.py, simulation.py and stream_health.py. Constraint is
--     `InstrumentConstraint.evaluate_order`, Bar an OHLCTV bar, Simulation the simulated account and the
--     cost model, ReplayResult the result of a replayed order. Text has the checks of text fields, Result exceptions as values, Ensures
--     the properties of what is returned. A class is a record with the fields that the code reads; a
--     pydantic validator is a Boolean test, and a factory returns a Result.
--   * Engine: one function for each function of risk/engine.py, under its name without the leading
--     underscore. Metadata and Effect are `_metadata_view` and `_build_order_effect`; StateLimits,
--     ExposureLimits, LossLimits, MarketLimits and ExecutionLimits have the limits; Decision has
--     `evaluate_pre_trade_risk` and the soft caps. Within describes the orders that must not be
--     rejected, Range the amounts of which no result overflows; Safety, Total, Caps, Effects and Halt have the theorems.
--   * KillSwitch: Store has `load_snapshot`, `transition` and their helpers over the file as a value;
--     Latest, Newest and Reading follow the records through sorting, dictionary and selection;
--     Snapshot and Writing have the theorems.
--   * Replay: Validation has the checks of bars and intents, Metadata the reasons to reject an order,
--     Draft the results that are built, Settle the balances, Fill `_replay_one` and Run the whole
--     replay. Rule says what every outcome of `_replay_one` is, Loop carries it through the loop, and
--     Lookahead, Report, Solvency, Solvent, Final, Free, Apart, Order, Allowed, Constrained, Counts
--     and Exact have the theorems.
--   * Gate: `replay_risk_approved_market_orders` of risk/replay.py, which forwards the approved intents
--     of risk-check events to the replay; the replay is a parameter. Partition and Forwarding have the
--     theorems.
--   * Gateway: Event, Draft and Report are contracts/execution.py, Run is execution/gateway.py, with the
--     replay of Replay/Run in the place of the parameter of Gate. Valid, Answers, Lifecycle, Accepted, Returns
--     and Within have the theorems.
--   * Examples and Tests of Engine, KillSwitch, Replay, Gate and Gateway: concrete inputs.
--
-- Conventions. Times are microseconds as natural numbers. A Decimal is an integer over a power of
-- ten. Digests (`build_order_intent_hash`, the identifiers of events and of records) are parameters,
-- any functions of what they are digests of. The only fuel is that of `Decimal.digits`, the number
-- itself, which is enough because each step divides it by ten.
--
-- Not modelled: the bytes of the store's JSON file (the file is absent, unusable, not an object,
-- undecodable, or a list of records), the identity digests that the validators recompute, the checks of
-- text fields except in kill-switch records, default policies and replay reports (Contracts/Text; all
-- other texts, such as the run id that the gate and the gateways are given, are taken to pass them), naive datetimes (a time
-- is an instant), the exponent limits of decimals (a theorem that a run on given amounts returns assumes
-- ordinary ones), and fields that no modelled operation reads. The parts of the program that this library does not
-- reach yet are the stress scenarios (src/ta_model/simulation/scenarios.py), the paper broker
-- (src/ta_model/execution/paper.py), strategies, evaluation, training, validation, features, storage and
-- connectors.
pub mod Base
pub mod Decimal
pub mod Contracts
pub mod Engine
pub mod KillSwitch
pub mod Replay
pub mod Gate
pub mod Gateway
