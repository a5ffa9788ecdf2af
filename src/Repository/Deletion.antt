-- ===== src/Repository/Deletion.antt =====
-- internal/incidents/deletion.go: the decisions and items of incident deletion.
pub mod Request
pub mod Process
pub mod Decide
pub mod Claim
pub mod Cover
