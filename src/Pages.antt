-- ===== src/Pages.antt =====
-- On the events that `processOwned` of packages/indexer/src/event-indexer.ts is given.
pub mod Groups
pub mod Order
pub mod Transactions
pub mod Last
pub mod Again
pub mod Loop
pub mod Replayed
pub mod Append
pub mod Overlap
pub mod Cut
