-- ===== src/Indexer.antt =====
-- packages/indexer/src/event-indexer.ts, and the store of packages/indexer/src/memory-store.ts.
pub mod Store
pub mod Memory
pub mod Operation
pub mod Cursor
pub mod Process
pub mod Checkpoint
pub mod Writer
pub mod Worker
pub mod FileStore
pub mod Runs
