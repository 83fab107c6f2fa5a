-- ===== src/Durability/Restart.antt =====
-- On `restoreLatestSnapshot` of packages/indexer/src/event-indexer.ts after a checkpoint in the
-- in-memory store.
use cedra_reflect.Base.{
  Option, ap, if◌then◌else◌, nat_eq, none, refl, some, subst, suc, sym, true, ◌∙◌, ◌≡◌,
}
use cedra_reflect.Checkpoints.RoundTrip.{IsOwnKeyed, IsSealed, IsSealed-decode}
use cedra_reflect.Indexer.Checkpoint.{restore_latest_snapshot_owned, take_over}
use cedra_reflect.Indexer.Memory.{MemoryStore, memory_store}
use cedra_reflect.Indexer.Operation.{
  IndexerState, World, invalidate_reconciliation, is_owner, release_owner, with_state_owner,
}
use cedra_reflect.Indexer.Runs.{asserted, lifted, then_ok}
use cedra_reflect.Indexer.Store.{Identity, ok}
use cedra_reflect.Indexer.Writer.{restore_latest_snapshot}
use cedra_reflect.Snapshot.Codec.{Codec, decode_snapshot, encode_snapshot}
use cedra_reflect.Types.Observed.{IndexerSnapshot}

-- An indexer that goes on from a snapshot.
abbrev pub resumed : IndexerSnapshot → IndexerState → IndexerState
resumed t s = record s {
  projection = t.projection;
  projection_object = suc s.projection_object;
  cursor = t.cursor;
  reconciled = none;
  active_state_owner = none;
  durable_base_snapshot_id = some (some t.id);
}

abbrev world_with :
    IndexerState → MemoryStore → Option Identity → Option IndexerSnapshot → World MemoryStore
world_with s m holder latest = record {
  indexer = record s { active_state_owner = holder };
  store = record m { latest = latest };
}

restored_run :
    (c : Codec) (owner : Identity) (s : IndexerState) (m : MemoryStore) (t : IndexerSnapshot)
    → decode_snapshot c (encode_snapshot c t) ≡ some t
    → restore_latest_snapshot_owned c memory_store owner (world_with s m (some owner) (some t)) ≡ (
      record {
        indexer = record (resumed t s) { active_state_owner = some owner };
        store = record m { latest = some t };
      },
      ok (some t),
    )
unfolding restore_latest_snapshot_owned take_over
restored_run c owner s m t decoded =
    let held = world_with s m (some owner) (some t) in
    let idle = record held { indexer = invalidate_reconciliation held.indexer } in
    then_ok _ _ (asserted owner held refl)
    ∙ then_ok _ _ {v = idle} refl
    ∙ then_ok _ _ {a = some t} refl
    ∙ then_ok _ _ (asserted owner idle refl)
    ∙ then_ok _ _ (lifted (decode_snapshot c (encode_snapshot c t)) t idle decoded)
    ∙ then_ok _ _ refl

released_run :
    (c : Codec) (owner : Identity) (s : IndexerState) (m : MemoryStore) (t : IndexerSnapshot)
    → decode_snapshot c (encode_snapshot c t) ≡ some t
    → restore_latest_snapshot c memory_store owner (world_with s m none (some t))
      ≡ (record { indexer = resumed t s; store = record m { latest = some t } }, ok (some t))
unfolding restore_latest_snapshot with_state_owner
released_run c owner s m t decoded =
    let mine : is_owner owner (some owner) ≡ true = (nat_eq.beq_iff owner owner).1 refl in
    ap (λ r. (record r.0 { indexer = release_owner owner r.0.indexer }, r.1))
      (restored_run c owner s m t decoded)
    ∙ ap
        (λ b. (
          record {
            indexer = record (resumed t s) { active_state_owner = if b then none else some owner };
            store = record m { latest = some t };
          },
          ok (some t),
        ))
        mine

-- An idle indexer that restores from the in-memory store a snapshot that passes its validation, of a projection whose maps are keyed by their
-- values, is given it back whole: it goes on from the snapshot's projection and cursor, on its
-- identifier as the durable base, with nothing reconciled, and the store is as it was.
pub restore_latest_snapshot-resumed :
    (c : Codec) (owner : Identity) (w : World MemoryStore) (t : IndexerSnapshot)
    → w.indexer.active_state_owner ≡ none
    → w.store.latest ≡ some t
    → IsSealed c t
    → IsOwnKeyed t.projection
    → restore_latest_snapshot c memory_store owner w
      ≡ (record { indexer = resumed t w.indexer; store = w.store }, ok (some t))
restore_latest_snapshot-resumed c owner w t free held is_sealed keyed =
    let decoded = IsSealed-decode c t keyed is_sealed in
    subst
      (λ latest.
        restore_latest_snapshot c memory_store owner
          (world_with w.indexer w.store w.indexer.active_state_owner latest)
        ≡ (
          record { indexer = resumed t w.indexer; store = record w.store { latest = latest } },
          ok (some t),
        ))
      (sym held)
      (subst
        (λ holder.
          restore_latest_snapshot c memory_store owner
            (world_with w.indexer w.store holder (some t))
          ≡ (
            record { indexer = resumed t w.indexer; store = record w.store { latest = some t } },
            ok (some t),
          ))
        (sym free) (released_run c owner w.indexer w.store t decoded))
