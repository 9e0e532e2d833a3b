-- ===== src/Sinks.antt =====
-- src/sinks/state.rs: the router of events to the sinks.
pub mod Router
