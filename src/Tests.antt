-- ===== src/Tests.antt =====
-- Small databases that the operations run on, and the theorems at concrete inputs.
pub mod Fixtures
pub mod Media
pub mod Sharing
pub mod Deletion
pub mod Access
pub mod Times
pub mod Totp
pub mod Passes
pub mod Coordination
pub mod RateLimit
