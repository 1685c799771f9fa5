-- ===== src/Conv/Safety.antt =====
-- The contract of Conv/Step.antt seen from the data: messages, numbers, roles and receipts.
pub mod Untouched
pub mod Messages
pub mod Numbering
pub mod Roles
pub mod Content
pub mod Auth
pub mod Receipts
pub mod Contacts
