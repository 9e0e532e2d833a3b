-- ===== src/Validation.antt =====
-- src/rhai_ctx/event_validation.rs: the checks that a script makes on the fields of an event.
pub mod Value
pub mod Field
pub mod Chain
