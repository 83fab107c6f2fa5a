-- ===== src/Checkpoints.antt =====
-- On the checkpoints of packages/indexer/src/snapshot.ts.
pub mod Maps
pub mod RoundTrip
