-- ===== src/Lib.antt =====
-- The event indexer of the cedra-reflect protocol.
--
-- The indexer replays the events of the reflection token, of its pool and of the LP reward epochs
-- into one projection, recomputes what the contracts computed, and raises critical alerts where the
-- two disagree. This library models the part that decides: the reduction of the events of one
-- ledger transaction (`reduceEventGroup`) and all that it calls, and the cycle around it: a page is
-- processed, the projection is reconciled with the chain's views, and a checkpoint is made durable.
--
-- Parts, with the files that model them:
--   Types        packages/indexer/src/types.ts: events, projection, cursors and alerts, as records
--                and data types with the fields and the variants of the source.
--   Dict         JavaScript's `Map`, as a list of entries in insertion order.
--   Int          `bigint`, as signed integers over the native numbers, division towards zero.
--   Domains      packages/indexer/src/move-domains.ts: the widths of events and projection, and the
--                checked arithmetic, where a throw is `none`.
--   Accounting   packages/indexer/src/accounting.ts: pending rewards, liabilities, vault balances.
--   Reducer      packages/indexer/src/reducer.ts. Monad: the mutable context as a state that is
--                passed on, alerts as a list that grows, a throw as an outcome of its own. Screen:
--                sort and screening (`reduceEventGroup` before its filters). Group: the filters.
--                Pairing and LiquidityCheck: the checks before the `try`. Wallet, Lifecycle,
--                Authority, Core, Lp, LpRewards and Pool: the cases of the `switch`, one function
--                each (`on_…` and the name of the event). Dispatch: the `switch` and its loop.
--                Audit: the checks after the loop. Reduce: `reduceEventGroup` itself, with the
--                rollback of the `catch`. Empty: `createEmptyProjection`. Arith: `ceilDiv`,
--                `integerSqrt` and `checkedVaultRemainder`.
--   Reconciler   packages/indexer/src/reconciler.ts: `reconcile`, its checks in the order of the
--                source. Epochs: the LP epochs. Core and Pool: the views of core, custody and pool.
--   Snapshot     packages/indexer/src/snapshot.ts. Serial: the plain form. Valid and Projection: its
--                validation. Codec: `takeSnapshot`, `encodeSnapshot`, `decodeSnapshot`.
--   Indexer      packages/indexer/src/event-indexer.ts. Operation: its state, and operations that may
--                end in an error. Cursor: sort, skipping and grouping of a page. Process, Checkpoint
--                and Writer: the methods of the class. Runs: what `process` comes to on an idle
--                indexer. Store: the interfaces of store and source.
--                Memory: packages/indexer/src/memory-store.ts. Worker:
--                packages/indexer/src/worker.ts, but for the file sink. FileStore: the snapshot file
--                of packages/indexer/src/file-store.ts.
--   Agreement    the proofs on a reconciliation without alerts.
--   Checkpoints, Certificates, Durability, Pages
--                the proofs on snapshots that are written and read, on what a durable checkpoint
--                rests on, on the writers of a store and on restarts, and on the groups of a page.
--   Conservation, Rewards, Screening, Widths, Totality, Arithmetic
--                the proofs: on the ledger's sums through every handler, on the reward index, on the
--                events that pass, on Move widths, on throws that escape, and on the rounding helpers.
--   Tests        runs at concrete events.
--
-- How they interact: an event group is sorted and screened against `Domains`; what passes is paired
-- by `Pairing` and `LiquidityCheck` on the projection before it, replayed by `Dispatch`, and audited
-- with the help of `Accounting`. The result is the new projection with the alerts of all stages; a
-- throw inside the replay gives back the projection before it, an alert more.
--
-- Around it, `Indexer.Process` cuts a page into transactions and reduces one after another;
-- `Indexer.Checkpoint` reconciles the projection with the views that the source gives at the
-- cursor's ledger version, and writes a snapshot only of the very projection object and cursor that
-- were reconciled last. The store is a record of operations (`IndexerStore`), which `Memory` fills;
-- what a store must keep is the record `Guards` of `Certificates.Certified`. The views that the chain
-- may give at a ledger version are a relation there, `ChainViews`, and a source is asked for them. JSON, SHA-256, the chain,
-- the sink of alerts and the clock are parameters; `Codec` states what is relied on of the first two.
--
-- Bounds: bigints are unbounded here as in the source; the widths are written out as `2 ^ w - 1` in
-- `Domains.Checked`. The one loop on fuel is that of `integerSqrt`, on as many rounds as its first
-- guess and one, which are enough because every round lowers the guess.
--
-- Left out: the texts of alerts and of thrown errors, which the indexer itself does not read back;
-- the casing of addresses, which the reducer compares and tests for zero only. Not modelled: the
-- alert journal and the file sink of alerts, which compare those texts
-- (packages/indexer/src/file-store.ts, packages/indexer/src/worker.ts), file locks and writes, the
-- decoding of raw events (packages/indexer/src/cedra-normalizer.ts), calls of a writer cycle that
-- overlap, the SDK, the release tools and the dashboard.
pub mod Base
pub mod Int
pub mod Dict
pub mod Types
pub mod Domains
pub mod Accounting
pub mod Reducer
pub mod Reconciler
pub mod Snapshot
pub mod Indexer
pub mod Conservation
pub mod Rewards
pub mod Agreement
pub mod Checkpoints
pub mod Pages
pub mod Certificates
pub mod Durability
pub mod Arithmetic
pub mod Totality
pub mod Screening
pub mod Widths
pub mod Tests
