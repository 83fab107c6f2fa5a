-- ===== src/Conservation.antt =====
-- On packages/indexer/src/reducer.ts: the totals that the projection keeps, and the sums of the
-- positions beside them.
pub mod Balance
pub mod Rules
pub mod Wallets
pub mod Custody
pub mod Epochs
pub mod LpEvents
pub mod Authority
pub mod Events
pub mod Audits
pub mod Transactions
pub mod Reachability
