-- ===== src/Handler.antt =====
-- What the request handlers share: the world that they act on, the action monad and its primitives.
pub mod World
pub mod Monad
