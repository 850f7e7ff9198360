-- ===== src/KillSwitch.antt =====
-- The durable kill-switch store (risk/kill_switch.py): the log of transitions and its reading. The
-- file is the store's state: it is absent, unusable (unreadable, not JSON, of another schema version,
-- or with an invalid record), a JSON value that is not an object, or a list of records. A
-- file whose bytes are not UTF-8 is not modelled.
pub mod Store
pub mod Latest
pub mod Newest
pub mod Reading
pub mod Snapshot
pub mod Writing
pub mod Examples
mod Tests
