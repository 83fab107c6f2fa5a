-- ===== src/Certificates/Steps.antt =====
-- On the operations of packages/indexer/src/event-indexer.ts that change its state or the store.
use cedra_reflect.Base.{
  List, Option, bool_eq, none, option_eq, refl, some, string_eq, subst, sym, ◌&&◌, ◌==◌, ◌≡◌,
}
use cedra_reflect.Int.{leb_ℤ, pos, ℤ, ℤ_eq}
use cedra_reflect.Certificates.Certified.{
  ChainViews, Guards, Holds, IsCertified, IsBacked, IsReconciled, IsSound,
}
use cedra_reflect.Certificates.Processing.{Triple-process_owned}
use cedra_reflect.Certificates.Triples.{
  Triple, Triple-assert, Triple-consulting, Triple-lifting, Triple-reading, Triple-requiring,
  Triple-returning, Triple-then, Triple-weaken, Triple-writing,
}
use cedra_reflect.Indexer.Checkpoint.{restore_latest_snapshot_owned, take_over}
use cedra_reflect.Indexer.Operation.{IndexerState, World, invalidate_reconciliation}
use cedra_reflect.Indexer.Process.{poll_once_owned, process_owned}
use cedra_reflect.Indexer.Store.{Identity, IndexerError, IndexerStore, ProtocolEventSource}
use cedra_reflect.Reducer.Empty.{cedra_testnet_chain_id}
use cedra_reflect.Snapshot.Codec.{Codec, decode_snapshot, encode_snapshot}
use cedra_reflect.Types.Common.{lifecycle_eq, status_eq}
use cedra_reflect.Types.Event.{ProtocolEvent}
use cedra_reflect.Types.Observed.{IndexerSnapshot}

-- Nothing is reconciled.
abbrev pub IsIdle : IndexerState → Type 0
IsIdle s = s.reconciled ≡ none

pub IsIdle-IsReconciled :
    {S : Type 0} (Shows : ChainViews) (c : Codec) (store : IndexerStore S) (s : IndexerState)
    → IsIdle s
    → IsReconciled Shows c store s
IsIdle-IsReconciled Shows c store s h = subst (IsBacked Shows c store s) (sym h) tt

module _ {S : Type 0} (Shows : ChainViews) (c : Codec) (store : IndexerStore S) (J : S → Type 0)
    (g : Guards store (IsCertified Shows c) J) where
  idle-IsSound : (w : World S) → Holds IsIdle J w → IsSound Shows c store J w
  idle-IsSound w (h, j) = (IsIdle-IsReconciled Shows c store w.indexer h, j)

  -- Processing drops the reconciliation first, and no group sets another.
  pub Triple-process_owned-IsIdle :
      (events : List ProtocolEvent) (owner : Identity) (lease : Option Identity)
      → Triple
          (IsSound Shows c store J)
          (IsSound Shows c store J)
          (process_owned store events owner lease)
          (λ _ w. Holds IsIdle J w)
  Triple-process_owned-IsIdle events owner lease =
      Triple-process_owned store J g (IsReconciled Shows c store) IsIdle
        (IsIdle-IsReconciled Shows c store) (λ _ _. refl) (λ _ _ _ _ k. k) events owner lease

  pub Triple-poll_once_owned :
      (source : ProtocolEventSource) (limit : ℤ) (owner : Identity) (lease : Option Identity)
      → Triple
          (IsSound Shows c store J)
          (IsSound Shows c store J)
          (poll_once_owned store source limit owner lease)
          (λ _ w. Holds IsIdle J w)
  unfolding poll_once_owned
  Triple-poll_once_owned source limit owner lease =
      Triple-then (IsSound Shows c store J)
        (Triple-assert (IsSound Shows c store J) owner (λ w h. h))
        (λ _.
          Triple-then (IsSound Shows c store J)
            (Triple-requiring (IsSound Shows c store J)
              (leb_ℤ (pos 1) limit && leb_ℤ limit (pos 10_000)) IndexerError.range_error (λ w h. h))
            (λ _.
              Triple-then (IsSound Shows c store J) (Triple-reading (IsSound Shows c store J)) (λ s.
                Triple-then (IsSound Shows c store J)
                  (Triple-lifting (IsSound Shows c store J) (source.list_events s.cursor limit)
                    (λ w h. h.0.0))
                  (λ page.
                    Triple-then (IsSound Shows c store J)
                      (Triple-assert (IsSound Shows c store J) owner (λ w h. h.0.0.0))
                      (λ _.
                        Triple-then (IsSound Shows c store J)
                          (Triple-requiring (IsSound Shows c store J)
                            (page.chain_id == cedra_testnet_chain_id) IndexerError.chain_id_mismatch
                            (λ w h. h.0.0.0))
                          (λ _.
                            Triple-weaken (IsSound Shows c store J) (λ w h. h.0.0.0.0)
                              (Triple-process_owned-IsIdle page.events owner lease)))))))

  Triple-take_over :
      (loaded : Option IndexerSnapshot)
      → Triple
          (IsSound Shows c store J)
          (Holds IsIdle J)
          (take_over c store loaded)
          (λ _ w. Holds IsIdle J w)
  unfolding take_over
  Triple-take_over none =
      Triple-then (IsSound Shows c store J)
        (Triple-writing (IsSound Shows c store J) (Holds IsIdle J) _ (λ w h. h))
        (λ _. Triple-returning (IsSound Shows c store J) none (λ w h. h))
  Triple-take_over (some t) =
      Triple-then (IsSound Shows c store J)
        (Triple-lifting (IsSound Shows c store J) (decode_snapshot c (encode_snapshot c t))
          idle-IsSound)
        (λ snapshot.
          Triple-then (IsSound Shows c store J)
            (Triple-writing (IsSound Shows c store J) (Holds IsIdle J) _ (λ w h. h.0))
            (λ _. Triple-returning (IsSound Shows c store J) (some snapshot) (λ w h. h)))

  -- Whatever the store gives back, nothing is reconciled after a restart.
  pub Triple-restore_latest_snapshot_owned :
      (owner : Identity)
      → Triple
          (IsSound Shows c store J)
          (IsSound Shows c store J)
          (restore_latest_snapshot_owned c store owner)
          (λ _ w. Holds IsIdle J w)
  unfolding restore_latest_snapshot_owned
  Triple-restore_latest_snapshot_owned owner =
      Triple-then (IsSound Shows c store J)
        (Triple-assert (IsSound Shows c store J) owner (λ w h. h))
        (λ _.
          Triple-then (IsSound Shows c store J)
            (Triple-writing (IsSound Shows c store J) (Holds IsIdle J) invalidate_reconciliation
              (λ w (_, j). (refl, j)))
            (λ _.
              Triple-then (IsSound Shows c store J)
                (Triple-consulting (IsSound Shows c store J) store.load_latest_snapshot
                  idle-IsSound)
                (λ loaded.
                  Triple-then (IsSound Shows c store J)
                    (Triple-assert (IsSound Shows c store J) owner idle-IsSound)
                    (λ _. Triple-take_over loaded))))
