-- ===== src/Snapshot.antt =====
-- packages/indexer/src/snapshot.ts: checkpoints and their texts.
pub mod Serial
pub mod Valid
pub mod Projection
pub mod Codec
