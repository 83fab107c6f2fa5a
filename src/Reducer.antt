-- ===== src/Reducer.antt =====
-- packages/indexer/src/reducer.ts: the replay of one ledger-version transaction.
pub mod Arith
pub mod Monad
pub mod Group
pub mod Wallet
pub mod Lifecycle
pub mod Authority
pub mod Core
pub mod Lp
pub mod LpRewards
pub mod Pool
pub mod Dispatch
pub mod Screen
pub mod Pairing
pub mod LiquidityCheck
pub mod Audit
pub mod Reduce
pub mod Empty
