-- ===== src/Conv.antt =====
-- The handlers of handlers_conv.go.
pub mod Requests
pub mod Dm
pub mod Room
pub mod Send
pub mod Change
pub mod Track
pub mod Shown
pub mod Ask
pub mod Get
pub mod Contact
pub mod Dispatch
pub mod Step
pub mod Outcome
pub mod Reply
pub mod Refines
pub mod Safety
pub mod Fixture
mod Tests
