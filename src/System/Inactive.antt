-- ===== src/System/Inactive.antt =====
-- An incident that a deletion decision has reached never becomes active again.
pub mod Defs
pub mod Run
pub mod Access
