-- ===== src/Store.antt =====
-- crates/argus-store: the SQLite repository.
pub mod Transactions
pub mod Outbox
pub mod KeyValue
pub mod Catalog
pub mod Progress
