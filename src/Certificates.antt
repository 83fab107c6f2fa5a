-- ===== src/Certificates.antt =====
-- On the checkpoints that the indexer of packages/indexer/src/event-indexer.ts makes durable.
pub mod Triples
pub mod Certified
pub mod Processing
pub mod Steps
pub mod Reconciling
pub mod Saving
pub mod Worlds
pub mod Durable
