-- ===== src/Domains.antt =====
-- packages/indexer/src/move-domains.ts: Move widths and checked arithmetic.
pub mod Checked
pub mod Laws
pub mod Event
pub mod Projection
