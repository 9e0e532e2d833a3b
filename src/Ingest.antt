-- ===== src/Ingest.antt =====
-- src/ingest/endpoint.rs: the handler that takes events over HTTP.
pub mod Issue
pub mod Request
pub mod Endpoint
pub mod Admitted
pub mod Secret
pub mod Acknowledged
