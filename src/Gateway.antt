-- ===== src/Gateway.antt =====
-- The simulator and paper gateways: their contracts (contracts/execution.py), and their runs through the
-- risk-gated replay (execution/gateway.py).
pub mod Event
pub mod Draft
pub mod Valid
pub mod Report
pub mod Run
pub mod Answers
pub mod Lifecycle
pub mod Accepted
pub mod Returns
pub mod Within
mod Tests
