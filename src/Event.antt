-- ===== src/Event.antt =====
-- internal/event: the events that the service publishes.
pub mod Constants
pub mod Dedup
pub mod Types
pub mod MediaId
pub mod Samples
mod Tests
