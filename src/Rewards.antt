-- ===== src/Rewards.antt =====
-- The magnified reward index of packages/indexer/src/reducer.ts: what a transfer, a fee and the
-- audit of a transaction do to what is owed.
pub mod Accrual
pub mod LpAccrual
pub mod Index
pub mod Solvency
