-- ===== src/Events.antt =====
-- internal/events: the in-process event bus.
pub mod Bus
pub mod Remediations
mod Tests
