-- ===== src/Repository.antt =====
-- The methods of `type Repository` (internal/incidents) as transactions on the metadata database.
-- `now` is the instant that the method reads from the clock, and `id` the identifier that `newID`
-- draws for it. A failure of the database driver or of the random source is not modelled; the
-- tables' PRIMARY KEY, UNIQUE, CHECK and foreign key constraints are.
pub mod Constraints
pub mod Incidents
pub mod Streams
pub mod Chunks
pub mod Checkins
pub mod Tokens
pub mod Uploads
pub mod Audit
pub mod Deletion
pub mod Retention
pub mod Detail
pub mod Sharing
pub mod RecipientKeys
