-- ===== src/Conv/Refines.antt =====
-- The handlers of handlers_conv.go against the contract of Conv/Step.antt.
pub mod Room
pub mod Dm
pub mod Change
pub mod Send
pub mod Track
pub mod Ask
pub mod Get
pub mod Contact
pub mod Dispatch
