-- ===== src/System/Sharing/Keys.antt =====
-- The table of contact keys: of each contact, one key at most is open (pending verification, or
-- active).
pub mod Defs
pub mod Steps
pub mod Insert
pub mod Supersede
pub mod Update
pub mod Keyed
pub mod Calls
pub mod Changes
pub mod Run
pub mod OneOpen
pub mod Register
pub mod Rotates
pub mod Refines
pub mod Ended
