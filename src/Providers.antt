-- ===== src/Providers.antt =====
-- crates/argus-providers: the data source and the concurrent block fetcher.
pub mod Source
pub mod Fetcher
pub mod Rpc
