-- ===== src/Types.antt =====
-- The data of packages/indexer/src/types.ts: events, the projection and alerts.
pub mod Common
pub mod Setup
pub mod Core
pub mod Admin
pub mod Lp
pub mod Event
pub mod State
pub mod Observed
