-- ===== src/Events.antt =====
-- Usage events: token counts in responses, their costs, and the sink that stores events without blocking a
-- request (crates/drgtw-events/src).
pub mod Extract
pub mod Sink
