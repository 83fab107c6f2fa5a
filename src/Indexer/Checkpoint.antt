-- ===== src/Indexer/Checkpoint.antt =====
-- `reconcileOwned`, `snapshotOwned` and `restoreLatestSnapshotOwned` of
-- packages/indexer/src/event-indexer.ts.
use cedra_reflect.Base.{
  Bool, Option, String, bool_eq, false, is_none, nat_beq, none, option_eq, some, string_eq, ◌&&◌,
  ◌==◌, ◌>>=◌,
}
use cedra_reflect.Int.{leb_ℤ, pos, ℤ, ℤ_eq}
use cedra_reflect.Indexer.Cursor.{compare_cursor}
use cedra_reflect.Indexer.Operation.{
  IndexerState, Operation, Reconciled, assert_state_owner, consulting, invalidate_reconciliation,
  lifting, present, reading, requiring, returning, set_projection, storing, whether,
  with_store_writer, writing, ◌▸◌,
}
use cedra_reflect.Indexer.Process.{report_alerts}
use cedra_reflect.Indexer.Store.{Identity, IndexerError, IndexerStore, ProtocolEventSource}
use cedra_reflect.Reconciler.Reconcile.{reconcile}
use cedra_reflect.Reducer.Authority.{authorities_complete}
use cedra_reflect.Reducer.Empty.{cedra_testnet_chain_id, create_empty_projection}
use cedra_reflect.Snapshot.Codec.{Codec, decode_snapshot, encode_snapshot, take_snapshot}
use cedra_reflect.Types.Common.{EventCursor, lifecycle_eq, status_eq}
use cedra_reflect.Types.Observed.{IndexerSnapshot, ReconciliationReport}
use cedra_reflect.Types.State.{ProtocolProjection}

-- `compareCursor(…) === 0`, of a cursor that may be null.
unfoldable pub is_at_cursor : EventCursor → Option EventCursor → Bool
unfolding compare_cursor
is_at_cursor cursor none = false
is_at_cursor cursor (some d) = compare_cursor d cursor == pos 0

-- The first tests of `snapshotOwned`, and some of those of `reconcileOwned`.
unfoldable pub is_checkpointable : ProtocolProjection → Bool
unfolding authorities_complete
is_checkpointable p =
    p.chain_id == cedra_testnet_chain_id
    && p.deployment_ready
    && authorities_complete p.operational_admins

-- The reconciliation in hand is of the projection's object and of the cursor.
unfoldable pub is_of_state : IndexerState → EventCursor → Reconciled → Bool
unfolding is_at_cursor
is_of_state s cursor r =
    nat_beq r.projection s.projection_object && is_at_cursor cursor (some r.cursor)

module _ {S : Type 0} (c : Codec) (store : IndexerStore S) where
  -- `checkpointStateIdentity`
  unfoldable pub checkpoint_state_identity : ProtocolProjection → EventCursor → Option String
  unfolding take_snapshot
  checkpoint_state_identity p cursor = take_snapshot c p (some cursor) (pos 0) >>= λ s. some s.id

  -- What the loaded snapshot is turned into: validated, and taken over.
  unfoldable pub take_over : Option IndexerSnapshot → Operation S (Option IndexerSnapshot)
  unfolding decode_snapshot encode_snapshot
  take_over none =
      writing (λ s. record (set_projection create_empty_projection none s) {
        durable_base_snapshot_id = some none;
      })
      ▸ λ _. returning none
  take_over (some t) = lifting (decode_snapshot c (encode_snapshot c t)) ▸ λ snapshot.
      writing (λ s. record (set_projection snapshot.projection snapshot.cursor s) {
        durable_base_snapshot_id = some (some snapshot.id);
      })
      ▸ λ _. returning (some snapshot)

  unfoldable pub restore_latest_snapshot_owned : Identity → Operation S (Option IndexerSnapshot)
  unfolding take_over
  restore_latest_snapshot_owned owner = assert_state_owner owner ▸ λ _.
      writing invalidate_reconciliation ▸ λ _. consulting store.load_latest_snapshot ▸ λ loaded.
      assert_state_owner owner ▸ λ _. take_over loaded

  -- The end of `reconcileOwned`, where nothing has changed since its begin.
  unfoldable pub accept_reconciliation : IndexerState → EventCursor → String → Operation S Unit
  unfolding is_at_cursor checkpoint_state_identity
  accept_reconciliation before cursor identity = reading ▸ λ s.
      whether (nat_beq s.projection_object before.projection_object && is_at_cursor cursor s.cursor)
        (lifting (checkpoint_state_identity s.projection cursor) ▸ λ again.
          whether (again == identity)
            (writing (λ t. record t {
              reconciled = some (record {
                projection = before.projection_object;
                cursor = cursor;
                state_identity = identity;
              });
            }))
            (returning tt))
        (returning tt)

  unfoldable pub reconcile_owned :
      ℤ → ProtocolEventSource → Identity → Option Identity → Operation S ReconciliationReport
  unfolding reconcile report_alerts accept_reconciliation is_checkpointable
  reconcile_owned now source owner lease = assert_state_owner owner ▸ λ _. reading ▸ λ s.
      present s.cursor IndexerError.not_indexed ▸ λ cursor. writing invalidate_reconciliation ▸ λ _.
      lifting (checkpoint_state_identity s.projection cursor) ▸ λ identity.
      lifting (source.get_accounting_snapshot cursor.ledger_version) ▸ λ observed.
      assert_state_owner owner ▸ λ _.
      lifting (reconcile now s.projection observed (some cursor)) ▸ λ report.
      report_alerts store report.alerts owner lease ▸ λ _.
      whether
        (report.reconciled
          && observed.chain_id == cedra_testnet_chain_id
          && is_checkpointable s.projection)
        (accept_reconciliation s cursor identity) (returning tt)
      ▸ λ _. returning report

  -- The durable base that is expected; without one, the store must be empty.
  unfoldable pub expected_base : Option (Option String) → Identity → Operation S (Option String)
  expected_base (some base) owner = returning base
  expected_base none owner = consulting store.load_latest_snapshot ▸ λ existing.
      assert_state_owner owner ▸ λ _.
      requiring (is_none existing) IndexerError.stale_snapshot ▸ λ _.
      writing (λ t. record t { durable_base_snapshot_id = some none }) ▸ λ _. returning none

  -- What `snapshotOwned` does under the store's lease.
  unfoldable pub save_owned : IndexerSnapshot → Identity → Identity → Operation S IndexerSnapshot
  unfolding expected_base
  save_owned snapshot owner lease = assert_state_owner owner ▸ λ _. reading ▸ λ s.
      expected_base s.durable_base_snapshot_id owner ▸ λ base.
      storing store (store.save_snapshot snapshot lease base) ▸ λ _. assert_state_owner owner ▸ λ _.
      writing (λ t. record t { durable_base_snapshot_id = some (some snapshot.id) }) ▸ λ _.
      returning snapshot

  unfoldable pub snapshot_owned : ℤ → Identity → Option Identity → Operation S IndexerSnapshot
  unfolding take_snapshot save_owned with_store_writer is_checkpointable is_of_state
      checkpoint_state_identity
  snapshot_owned taken_at owner lease = assert_state_owner owner ▸ λ _.
      requiring (leb_ℤ (pos 0) taken_at) IndexerError.range_error ▸ λ _. reading ▸ λ s.
      present s.cursor IndexerError.unreconciled_checkpoint ▸ λ cursor.
      requiring (is_checkpointable s.projection) IndexerError.unreconciled_checkpoint ▸ λ _.
      present s.reconciled IndexerError.unreconciled_checkpoint ▸ λ r.
      requiring (is_of_state s cursor r) IndexerError.unreconciled_checkpoint ▸ λ _.
      lifting (checkpoint_state_identity s.projection cursor) ▸ λ identity.
      requiring (r.state_identity == identity) IndexerError.unreconciled_checkpoint ▸ λ _.
      lifting (take_snapshot c s.projection (some cursor) taken_at) ▸ λ snapshot.
      with_store_writer store lease (save_owned snapshot owner)
