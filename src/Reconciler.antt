-- ===== src/Reconciler.antt =====
-- packages/indexer/src/reconciler.ts: the replayed projection against the views of the chain.
pub mod Site
pub mod Epochs
pub mod Core
pub mod Pool
pub mod Reconcile
