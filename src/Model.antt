-- ===== src/Model.antt =====
-- The data of internal/incidents/*models.go, and the metadata database that the repository methods
-- read and write.
mod Records
mod Uploads
mod Deletions
mod Accounts
mod Sharing
mod Contacts
mod Database
pub use Records.*
pub use Uploads.*
pub use Deletions.*
pub use Accounts.*
pub use Sharing.*
pub use Contacts.*
pub use Database.*
