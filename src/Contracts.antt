-- ===== src/Contracts.antt =====
-- The data contracts (contracts/*.py): the types that the components exchange and their
-- validators. Pydantic's own field checks are written out where they are about values (`gt=0`);
-- the checks of a text are written out for kill-switch records, default policies and replay reports,
-- and all other texts are taken to pass them. Fields that no modelled operation reads (names, source
-- stamps, schema versions, requirement ids) are left out.
pub mod Result
pub mod Text
pub mod Ensures
pub mod Instrument
pub mod Order
pub mod KillSwitch
pub mod Telemetry
pub mod Risk
pub mod Policy
pub mod Event
pub mod Constraint
pub mod Bar
pub mod Simulation
pub mod ReplayResult
