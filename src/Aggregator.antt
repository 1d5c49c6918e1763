-- ===== src/Aggregator.antt =====
-- pv-aggregator: page views from Kafka, gathered in a buffer and written to ClickHouse.
pub mod Event
pub mod Buffer
pub mod Dlq
pub mod Pipeline
pub mod Threads
pub mod Server
mod Tests
