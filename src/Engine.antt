-- ===== src/Engine.antt =====
-- crates/argus-engine: the services between the node and the outbox.
pub mod Polling
pub mod Ingestor
pub mod Processor
pub mod Alerts
pub mod Evaluation
pub mod Filtering
pub mod Outbox
