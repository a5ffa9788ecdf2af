-- ===== src/System/Latch.antt =====
-- A state that an incident does not leave, whatever calls are made: `live` tells that it is not reached.
pub mod Defs
pub mod Calls
pub mod Run
