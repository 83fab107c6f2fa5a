-- ===== src/Agreement.antt =====
-- On `reconcile` of packages/indexer/src/reconciler.ts: what holds of the chain's views where it
-- raises no alert.
pub mod Entries
pub mod Passes
pub mod Wallets
pub mod Epochs
pub mod Views
