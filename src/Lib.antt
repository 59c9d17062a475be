-- ===== src/Lib.antt =====
-- Argus: monitoring of EVM chains. A pipeline of services reads blocks from a node, correlates their
-- transactions with logs and receipts, filters them by scripts of the monitors, and delivers the
-- alerts that the matches raise. This library models the services that must not lose, repeat or
-- reorder blocks and alerts, and proves what makes each of them correct.
--
-- The parts and how they interact:
--   BlockIngestor fetches block ranges through the block fetcher and sends them, one by one, into a
--   channel. BlockProcessor buffers what it receives, correlates a batch, sends the results to the
--   filtering engine and then moves the mark of its network in the database, from which the ingestor
--   resumes after a restart. The filtering engine runs the scripts of the monitors on each transaction
--   and its logs, which the AbiService decodes. Its matches go to the AlertManager, which throttles or
--   aggregates them by the policy of their action, enqueues payloads into the outbox of the repository
--   and saves its states in the key-value store, from which it restores them. OutboxProcessor delivers
--   the outbox, oldest items first, and deletes what was delivered. The monitors in service decide
--   which logs and transactions are looked at: the monitor manager classifies them by what their
--   scripts access and builds the interest registry, by which the block processor skips transactions.
--
-- The files:
--   Base: shared types. Base/Tests has Boolean tests and machine words, Base/Keys what a table is
--     keyed by, Base/Int integers, Base/Maps hash maps as lists of entries, Base/Distinct maps with one
--     entry for a key, Base/Lists lists measured by native numbers, Base/Results errors and operations
--     on a state.
--   Core (crates/argus-core): Core/Chain is models/{log,transaction,block_data,correlated_data,
--     decoded_block}.rs, Core/Registry is monitor.rs, Core/Matches is models/monitor_match.rs with its
--     builder, Core/Actions is models/action and models/alert_manager_state.rs, Core/Payload is
--     action_dispatcher/payload.rs, Core/Repository is the outbox of persistence/traits.rs with the
--     contract that its clients rely on, Core/Config and Core/Errors the settings and the errors.
--   Providers (crates/argus-providers): Providers/Source is the DataSource trait, Providers/Fetcher is
--     block_fetcher.rs: fetch_blocks_only, fetch_logs_chunked and fetch_blocks_concurrent, and
--     Providers/Rpc is rpc.rs, the data source over a node.
--   Monitor (crates/argus-monitor): Monitor/Assets is the data of manager.rs, Monitor/Manager the
--     classification and the organisation of the monitors there, Monitor/Interests is
--     interest_registry.rs, Monitor/Validator is validator.rs with its template validator in
--     Monitor/Templates, Monitor/Persistence is persistence_validator.rs. What the script compiler, the
--     ABI service and the parser of addresses answer is an argument.
--   Abi (crates/argus-abi): Abi/Values is models.rs and the values that alloy decodes, Abi/Contracts the
--     CachedContract, Abi/Service the AbiService with its registered, linked and global ABIs, Abi/Calls
--     its decoding of the input of transactions, all of lib.rs.
--   Scripts (crates/argus-rhai): Scripts/Conversions is conversions.rs and Scripts/Proxies proxies.rs,
--     what a script sees of a transaction, a log and a call; Scripts/Validator is validator.rs and
--     Scripts/Compiler compiler.rs, the analysis of scripts with its cache.
--   Store (crates/argus-store): Store/Transactions is the outbox table with statements that may fail
--     and transactions that roll back, Store/Outbox the outbox operations and Store/Progress the
--     processed blocks of app_repository.rs, Store/KeyValue is key_value_store.rs over its table
--     and Store/Catalog the ABIs of app_repository.rs, its monitors and its actions, with the
--     constraints of their tables.
--   Engine (crates/argus-engine): Engine/Polling is polling.rs, Engine/Ingestor is block_ingestor.rs
--     (`cycles` is run, `ingest_blocks` one cycle, `drain` and `send_batch` its loops),
--     Engine/Processor is block_processor.rs (`run_service` is run), Engine/Evaluation the context of
--     filtering.rs with its caches, Engine/Filtering its two passes over the monitors of an item and
--     Engine/Filtering/Service its loop (`run_filtering` is run), Engine/Alerts is alert_manager.rs,
--     Engine/Alerts/Restore its AlertManager::new, Engine/Outbox is outbox_processor.rs.
--   Context is initialize_block_state of src/context/mod.rs, which sets the mark of a fresh network,
--     and crates/argus-core/src/config/initial_start_block.rs.
--   Each component has its definitions in its own file and its proofs in the modules below it, which
--   are named for what they prove; the tests and the examples are in its Samples module.
--
-- How code is modelled: a service is a record of its state, and an operation is a function on it that
--   returns the result with the state it leaves, also where it fails. A channel is the list of what
--   was sent. What the surroundings do is an argument: the node (DataSource), the order in which
--   concurrent requests complete, the sends, writes and statements that fail, each by its position,
--   cancellation, clocks, the outcome of a delivery, JSON texts and the standard hasher. So is what is
--   not of the repository: the evaluation of a script, alloy's decoding of data and serde. Machine words
--   wrap around as in a release build. Addresses, hashes and topics are the numbers that their bytes
--   spell, durations and instants are counted in nanoseconds.
--
-- Fuel: the fetch loop of the ingestor has a round more than there are blocks to fetch, and each
--   round takes a block at least; ingest_blocks_terminates says that it is never used up. The chunks
--   of a slice have its length as fuel. The drain of the outbox takes its number of rounds as an
--   argument, since the code's loop need not end; drain_queue_empties says when it does.
--
-- Not modelled: the Rhai engine, rhai-analyzer and alloy, which are third-party, with create_provider,
--   which only stacks alloy's layers; the senders of crates/argus-dispatch, the HTTP API, loading of
--   settings, metrics, tracing and the supervisor.
mod Base
pub mod Core
pub mod Abi
pub mod Scripts
pub mod Monitor
pub mod Providers
pub mod Store
pub mod Engine
pub mod Context
