-- ===== src/Indexer/Writer.antt =====
-- The public methods of `EventIndexer` (packages/indexer/src/event-indexer.ts) that check its state
-- against the chain and the store, and its writer cycle. The methods of a cycle run one after
-- another here; the calls that are not awaited, which the cycle drains, are not modelled.
use cedra_reflect.Base.{Option, none}
use cedra_reflect.Int.{ℤ}
use cedra_reflect.Indexer.Checkpoint.{
  reconcile_owned, restore_latest_snapshot_owned, snapshot_owned,
}
use cedra_reflect.Indexer.Operation.{Operation, with_exclusive_writer, with_state_owner}
use cedra_reflect.Indexer.Store.{Identity, IndexerStore, ProtocolEventSource}
use cedra_reflect.Snapshot.Codec.{Codec}
use cedra_reflect.Types.Observed.{IndexerSnapshot, ReconciliationReport}

module _ {S : Type 0} (c : Codec) (store : IndexerStore S) where
  unfoldable pub restore_latest_snapshot : Identity → Operation S (Option IndexerSnapshot)
  unfolding restore_latest_snapshot_owned with_state_owner
  restore_latest_snapshot owner =
      with_state_owner owner (restore_latest_snapshot_owned c store owner)

  unfoldable pub reconcile_views :
      ℤ → Identity → ProtocolEventSource → Operation S ReconciliationReport
  unfolding reconcile_owned with_state_owner
  reconcile_views now owner source =
      with_state_owner owner (reconcile_owned c store now source owner none)

  unfoldable pub checkpoint : Identity → ℤ → Operation S IndexerSnapshot
  unfolding snapshot_owned with_state_owner
  checkpoint owner taken_at = with_state_owner owner (snapshot_owned c store taken_at owner none)

  -- `withExclusiveStoreWriter`: the cycle is known by its owner and its lease.
  unfoldable pub with_exclusive_store_writer :
      {A : Type 0} → Identity → (Identity → Operation S A) → Operation S A
  unfolding with_exclusive_writer with_state_owner
  with_exclusive_store_writer owner operation =
      with_exclusive_writer store (λ lease. with_state_owner owner (operation lease))
