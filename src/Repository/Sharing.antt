-- ===== src/Repository/Sharing.antt =====
-- internal/incidents/sharing.go, wrapped_keys.go and trusted_contact_relationships.go: the public
-- keys of an account's contacts, its grants to them, the media keys wrapped for them, and the
-- relationships between accounts.
pub mod Accounts
pub mod ContactKeys
pub mod KeyStates
pub mod Grants
pub mod WrappedKeys
pub mod Relationships
pub mod Delivery
pub mod Calls
pub mod Frame
pub mod Race
