-- ===== src/Arithmetic.antt =====
-- The rounding helpers of packages/indexer/src/reducer.ts.
pub mod Rounding
pub mod Root
