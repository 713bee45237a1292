-- ===== src/Mq.antt =====
-- internal/mq: the PostgreSQL connection, the consumer of jobs and the publisher of results.
pub mod World
pub mod Carrier
pub mod Telemetry
pub mod Consumer
pub mod Publisher
pub mod Connection
