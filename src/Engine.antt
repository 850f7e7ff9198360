-- ===== src/Engine.antt =====
-- The pre-trade risk engine (risk/engine.py): one function for each limit, and the decision.
pub mod Evaluation
pub mod Metadata
pub mod Effect
pub mod StateLimits
pub mod ExposureLimits
pub mod LossLimits
pub mod MarketLimits
pub mod ExecutionLimits
pub mod Decision
pub mod Range
pub mod Outcome
pub mod Within
pub mod Safety
pub mod Total
pub mod Caps
pub mod Effects
pub mod Halt
pub mod Examples
mod Tests
