-- ===== src/Tests.antt =====
-- Concrete instances of what the model is given, and the theorems at concrete inputs.
mod World
mod Log
mod Delivery
mod Writer
mod Start
mod Service
mod Ingest
mod Validation
mod Sinks
