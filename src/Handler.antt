-- ===== src/Handler.antt =====
-- internal/handler: the job processor.
pub mod World
pub mod Validation
pub mod Events
pub mod Pipeline
pub mod Processor
pub mod Protocol
pub mod Outcome
