-- ===== src/Store.antt =====
-- The store (store/): the tables, and the SQL statements as functions on them.
pub mod Types
pub mod Conversations
pub mod Members
pub mod Messages
pub mod Reactions
pub mod Reads
pub mod Visible
pub mod Pages
pub mod Expiry
pub mod Toggles
pub mod Dm
pub mod Unique
pub mod Numbering
pub mod Roles
pub mod Contacts
pub mod Invites
pub mod Queries
pub mod Redeeming
pub mod Symmetry
mod Tests
