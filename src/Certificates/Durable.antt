-- ===== src/Certificates/Durable.antt =====
-- On the checkpoint that `InMemoryIndexerStore` (packages/indexer/src/memory-store.ts) holds.
use cedra_reflect.Base.{
  Bool-cases, Option, bool_eq, inl, inr, none, option_eq, some, string_eq, subst, sym, ◌==◌, ◌≡◌,
}
use cedra_reflect.Int.{ℤ_eq}
use cedra_reflect.Certificates.Certified.{ChainViews, Guards, IsCertified}
use cedra_reflect.Certificates.Steps.{IsIdle-IsReconciled}
use cedra_reflect.Certificates.Worlds.{Run, Run-IsSound}
use cedra_reflect.Indexer.Memory.{
  MemoryStore, acquire_writer, append_alerts_in_memory, is_active_lease, latest_id, memory_store,
  release_writer, save_snapshot_in_memory,
}
use cedra_reflect.Indexer.Operation.{World}
use cedra_reflect.Indexer.Worker.{CriticalAlertSink}
use cedra_reflect.Snapshot.Codec.{Codec}
use cedra_reflect.Types.Common.{CriticalAlert, lifecycle_eq, status_eq}
use cedra_reflect.Types.Observed.{IndexerSnapshot}

abbrev pub IsLatest : (IndexerSnapshot → Type 0) → Option IndexerSnapshot → Type 0
IsLatest C none = Unit
IsLatest C (some t) = C t

memory_store-Guards :
    (C : IndexerSnapshot → Type 0) → Guards memory_store C (λ s. IsLatest C s.latest)
unfolding acquire_writer release_writer save_snapshot_in_memory append_alerts_in_memory
memory_store-Guards C = record {
  acquiring =
      λ s h. elim (Bool-cases s.writer_active) [ inl busy ↦ rw busy h | inr free ↦ rw free h ];
  releasing = λ s h. h;
  saving = λ t lease base s certified h. elim (Bool-cases (is_active_lease lease s)) [
    | inr other ↦ rw other h
    | inl own ↦ rw own (elim (Bool-cases (latest_id s == base)) [
      | inl fresh ↦ rw fresh certified
      | inr stale ↦ rw stale h
    ])
  ];
  appending = λ alerts lease s h. elim (Bool-cases (is_active_lease lease s)) [
    | inl own ↦ rw own h
    | inr other ↦ rw other h
  ];
}

-- From an indexer without a reconciliation in hand, on an empty in-memory store: whatever calls run
-- in whatever order, on whatever events, and however often the process restarts on its store, as long
-- as the sink of alerts leaves the checkpoint alone and every source that is asked for views answers
-- with the chain's at the version asked for. A checkpoint that the store holds then passes the
-- validation of its decoder under the identifier of its content, has a complete chain-2 deployment,
-- and has a cursor at whose ledger version the chain shows views that match its projection.
pub Run-IsCertified :
    (Shows : ChainViews) (c : Codec) (sink : CriticalAlertSink MemoryStore)
    (w v : World MemoryStore)
    → ((a : CriticalAlert) (s : MemoryStore) → (sink.deliver a s).0.latest ≡ s.latest)
    → w.indexer.reconciled ≡ none
    → w.store.latest ≡ none
    → Run Shows c memory_store sink w v
    → (t : IndexerSnapshot) → v.store.latest ≡ some t
    → IsCertified Shows c t
Run-IsCertified Shows c sink w v quiet idle empty run t held =
    let sound =
      Run-IsSound Shows c memory_store sink (λ s. IsLatest (IsCertified Shows c) s.latest)
        (memory_store-Guards (IsCertified Shows c))
        (λ a s h. subst (IsLatest (IsCertified Shows c)) (sym (quiet a s)) h) w v
        (
          IsIdle-IsReconciled Shows c memory_store w.indexer idle,
          subst (IsLatest (IsCertified Shows c)) (sym empty) tt,
        )
        run in
    subst (IsLatest (IsCertified Shows c)) held sound.1
