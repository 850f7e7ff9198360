-- ===== src/Replay.antt =====
-- The event-time replay (simulation/replay.py): bars and intents are checked, and each intent is
-- filled on a later bar, rejected, or left unfilled, while the simulated balances are passed on.
pub mod Validation
pub mod Metadata
pub mod Draft
pub mod Settle
pub mod Fill
pub mod Run
pub mod Rule
pub mod Loop
pub mod Lookahead
pub mod Report
pub mod Solvency
pub mod Solvent
pub mod Final
pub mod Free
pub mod Apart
pub mod Order
pub mod Allowed
pub mod Constrained
pub mod Counts
pub mod Exact
pub mod Examples
mod Tests
