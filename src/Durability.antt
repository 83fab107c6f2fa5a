-- ===== src/Durability.antt =====
-- On the durable state of packages/indexer/src/memory-store.ts, and on restarts from it.
pub mod Writers
pub mod Restart
pub mod Files
