-- ===== src/Indexer/Store.antt =====
-- The store, as the event indexer uses it (`IndexerStore` of packages/indexer/src/types.ts), and the
-- errors of packages/indexer/src/event-indexer.ts and of the stores.
use cedra_reflect.Base.{Bool, List, Option, String, ℕ}
use cedra_reflect.Int.{ℤ}
use cedra_reflect.Types.Common.{CriticalAlert, EventCursor}
use cedra_reflect.Types.Observed.{EventPage, IndexerSnapshot, ObservedAccountingSnapshot}

-- `ProtocolEventSource` of packages/indexer/src/types.ts: the chain, as it is read. `none` is a
-- rejected promise.
pub record ProtocolEventSource : Type 0 where
  pub list_events : Option EventCursor → ℤ → Option EventPage
  pub get_accounting_snapshot : ℤ → Option ObservedAccountingSnapshot

-- A class of error each; `failed` is what is thrown in what the indexer calls.
pub data IndexerError : Type 0 where
  chain_id_mismatch : IndexerError
  unreconciled_checkpoint : IndexerError
  concurrent_operation : IndexerError
  invalid_writer_cycle : IndexerError
  lease_required : IndexerError
  concurrent_durable_writer : IndexerError
  invalid_writer_lease : IndexerError
  stale_snapshot : IndexerError
  range_error : IndexerError
  not_indexed : IndexerError
  failed : IndexerError

pub data Result (A : Type 0) : Type 0 where
  ok : A → Result A
  refused : IndexerError → Result A

-- Leases and owners are objects that are compared by identity.
abbrev pub Identity : Type 0
Identity = ℕ

-- The states of a store, and its operations on them. `acquire` and `release` are the two ends of
-- `withExclusiveWriter`.
pub record IndexerStore (S : Type 0) : Type 0 where
  pub permits_implicit_writer_lease : Bool
  pub acquire : S → S × Result Identity
  pub release : S → S
  pub load_latest_snapshot : S → Result (Option IndexerSnapshot)
  pub save_snapshot : IndexerSnapshot → Identity → Option String → S → S × Result Unit
  pub append_alerts : List CriticalAlert → Identity → S → S × Result Unit
