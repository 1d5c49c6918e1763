-- ===== src/Producer.antt =====
-- pv-producer: page views made up at random, sent to Kafka one by one or in batches.
pub mod Event
pub mod Generator
pub mod Metrics
pub mod Broker
pub mod Kafka
pub mod Threads
pub mod Delivered
pub mod Loop
pub mod Control
mod Tests
