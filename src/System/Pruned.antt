-- ===== src/System/Pruned.antt =====
-- What a deletion has pruned stays gone: no call adds a row to an incident that is not active.
pub mod Defs
pub mod Calls
pub mod Sharing
pub mod Run
