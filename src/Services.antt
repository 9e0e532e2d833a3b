-- ===== src/Services.antt =====
-- src/services: the state that the handlers share.
pub mod Project
