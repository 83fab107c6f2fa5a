-- ===== src/Totality.antt =====
-- On packages/indexer/src/reducer.ts: the arithmetic that `reduceEventGroup` does outside its `try`.
pub mod Products
pub mod Receipts
pub mod Transactions
