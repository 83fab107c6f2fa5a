-- ===== src/Certificates/Saving.antt =====
-- On `snapshotOwned` of packages/indexer/src/event-indexer.ts.
use cedra_reflect.Base.{
  Option, String, ap, arith, bool_eq, is_none, nat_beq, none, option_eq, same, some, string_eq,
  subst, sym, true, ◌==◌, ◌∙◌, ◌≡◌,
}
use cedra_reflect.Int.{leb_ℤ, pos, ℤ, ℤ_eq}
use cedra_reflect.Certificates.Certified.{
  ChainViews, Guards, IsBacked, IsCertified, IsReconciled, IsShown, IsSound,
  Triple-with_store_writer,
}
use cedra_reflect.Certificates.Triples.{
  Ended, Triple, Triple-assert, Triple-consulting, Triple-given, Triple-lifting, Triple-present,
  Triple-reading, Triple-requiring, Triple-returning, Triple-then, Triple-weaken, Triple-writing,
}
use cedra_reflect.Checkpoints.RoundTrip.{take_snapshot-IsSealed}
use cedra_reflect.Indexer.Checkpoint.{
  checkpoint_state_identity, expected_base, is_at_cursor, is_checkpointable, is_of_state,
  save_owned, snapshot_owned,
}
use cedra_reflect.Indexer.Operation.{IndexerState, Reconciled}
use cedra_reflect.Indexer.Store.{Identity, IndexerError, IndexerStore, Result, ok, refused}
use cedra_reflect.Snapshot.Codec.{Codec, take_snapshot}
use cedra_reflect.Types.Common.{EventCursor, lifecycle_eq, status_eq}
use cedra_reflect.Types.Observed.{IndexerSnapshot}

module _ {S : Type 0} (Shows : ChainViews) (c : Codec) (store : IndexerStore S) (J : S → Type 0)
    (g : Guards store (IsCertified Shows c) J) where
  is_of_state-parts :
      (s : IndexerState) (cursor : EventCursor) (r : Reconciled)
      → is_of_state s cursor r ≡ true
      → (nat_beq r.projection s.projection_object ≡ true)
        × (is_at_cursor cursor (some r.cursor) ≡ true)
  unfolding is_of_state
  is_of_state-parts s cursor r h = ground arith

  take_snapshot-IsCertified :
      (s : IndexerState) (cursor : EventCursor) (r : Reconciled) (identity : String) (taken_at : ℤ)
      (t : IndexerSnapshot)
      → IsReconciled Shows c store s
      → s.cursor ≡ some cursor
      → is_checkpointable s.projection ≡ true
      → s.reconciled ≡ some r
      → is_of_state s cursor r ≡ true
      → checkpoint_state_identity c store s.projection cursor ≡ some identity
      → (r.state_identity == identity) ≡ true
      → take_snapshot c s.projection (some cursor) taken_at ≡ some t
      → IsCertified Shows c t
  take_snapshot-IsCertified s cursor r identity taken_at t h at ready held of_state named same
        taken =
      let (object, place) = is_of_state-parts s cursor r of_state in
      let shown =
        subst (IsBacked Shows c store s) held h cursor at object place
          (named ∙ ap some (sym ((string_eq.beq_iff r.state_identity identity).0 same))) in
      let (valid, kept, here) =
        take_snapshot-IsSealed c s.projection (some cursor) taken_at t taken in
      record {
        is_sealed = valid;
        is_ready = ap is_checkpointable kept ∙ ready;
        cursor = cursor;
        at = here;
        shown = subst (λ p. IsShown Shows p cursor) (sym kept) shown;
      }

  Triple-expected_base :
      (base : Option (Option String)) (owner : Identity)
      → Triple
          (IsSound Shows c store J)
          (IsSound Shows c store J)
          (expected_base c store base owner)
          (λ _ w. IsSound Shows c store J w)
  unfolding expected_base
  Triple-expected_base (some base) owner =
      Triple-returning (IsSound Shows c store J) base (λ w h. h)
  Triple-expected_base none owner =
      Triple-then (IsSound Shows c store J)
        (Triple-consulting (IsSound Shows c store J) store.load_latest_snapshot (λ w h. h))
        (λ existing.
          Triple-then (IsSound Shows c store J)
            (Triple-assert (IsSound Shows c store J) owner (λ w h. h))
            (λ _.
              Triple-then (IsSound Shows c store J)
                (Triple-requiring (IsSound Shows c store J) (is_none existing)
                  IndexerError.stale_snapshot (λ w h. h))
                (λ _.
                  Triple-then (IsSound Shows c store J)
                    (Triple-writing (IsSound Shows c store J) (IsSound Shows c store J)
                      (λ t. record t { durable_base_snapshot_id = some none }) (λ w h. h.0))
                    (λ _. Triple-returning (IsSound Shows c store J) none (λ w h. h)))))

  saved-Ended :
      (s : IndexerState) (r : S × Result Unit)
      → IsReconciled Shows c store s
      → J r.0
      → Ended
          (IsSound Shows c store J)
          (λ _ w. IsSound Shows c store J w)
          (record { indexer = s; store = r.0 }, r.1)
  saved-Ended s (t, ok a) h j = (h, j)
  saved-Ended s (t, refused e) h j = (h, j)

  Triple-save_owned :
      (t : IndexerSnapshot) (owner lease : Identity)
      → IsCertified Shows c t
      → Triple
          (IsSound Shows c store J)
          (IsSound Shows c store J)
          (save_owned c store t owner lease)
          (λ u w. IsSound Shows c store J w × IsCertified Shows c u)
  unfolding save_owned
  Triple-save_owned t owner lease certified =
      Triple-then (IsSound Shows c store J)
        (Triple-assert (IsSound Shows c store J) owner (λ w h. h))
        (λ _. Triple-then (IsSound Shows c store J) (Triple-reading (IsSound Shows c store J)) (λ s.
          Triple-then (IsSound Shows c store J)
            (Triple-weaken (IsSound Shows c store J) (λ w h. h.0)
              (Triple-expected_base s.durable_base_snapshot_id owner))
            (λ base.
              Triple-then (IsSound Shows c store J) {Q = λ _ w. IsSound Shows c store J w}
                (record {
                  apply = λ w (h, j).
                      saved-Ended w.indexer (store.save_snapshot t lease base w.store) h
                        (g.saving t lease base w.store certified j);
                })
                (λ _.
                  Triple-then (IsSound Shows c store J)
                    (Triple-assert (IsSound Shows c store J) owner (λ w h. h))
                    (λ _.
                      Triple-then (IsSound Shows c store J)
                        (Triple-writing (IsSound Shows c store J) (IsSound Shows c store J)
                          (λ x. record x { durable_base_snapshot_id = some (some t.id) })
                          (λ w h. h))
                        (λ _.
                          Triple-returning (IsSound Shows c store J) t (λ w h. (h, certified))))))))

  pub Triple-snapshot_owned :
      (taken_at : ℤ) (owner : Identity) (lease : Option Identity)
      → Triple
          (IsSound Shows c store J)
          (IsSound Shows c store J)
          (snapshot_owned c store taken_at owner lease)
          (λ u w. IsSound Shows c store J w × IsCertified Shows c u)
  unfolding snapshot_owned
  Triple-snapshot_owned taken_at owner lease =
      let I = IsSound Shows c store J in
      Triple-then I (Triple-assert I owner (λ w h. h)) (λ _.
        Triple-then I
          (Triple-requiring I (leb_ℤ (pos 0) taken_at) IndexerError.range_error (λ w h. h))
          (λ _. Triple-then I (Triple-reading I) (λ s.
            Triple-then I
              (Triple-present I s.cursor IndexerError.unreconciled_checkpoint (λ w h. h.0.0))
              (λ cursor.
                Triple-then I
                  (Triple-requiring I (is_checkpointable s.projection)
                    IndexerError.unreconciled_checkpoint (λ w h. h.0.0.0))
                  (λ _.
                    Triple-then I
                      (Triple-present I s.reconciled IndexerError.unreconciled_checkpoint
                        (λ w h. h.0.0.0.0))
                      (λ r.
                        Triple-then I
                          (Triple-requiring I (is_of_state s cursor r)
                            IndexerError.unreconciled_checkpoint (λ w h. h.0.0.0.0.0))
                          (λ _.
                            Triple-then I
                              (Triple-lifting I
                                (checkpoint_state_identity c store s.projection cursor)
                                (λ w h. h.0.0.0.0.0.0))
                              (λ identity.
                                Triple-then I
                                  (Triple-requiring I (r.state_identity == identity)
                                    IndexerError.unreconciled_checkpoint (λ w h. h.0.0.0.0.0.0.0))
                                  (λ _.
                                    Triple-then I
                                      (Triple-lifting I
                                        (take_snapshot c s.projection (some cursor) taken_at)
                                        (λ w h. h.0.0.0.0.0.0.0.0))
                                      (λ t.
                                        Triple-given I (IsCertified Shows c t)
                                          (λ w
                                              (
                                                (
                                                  (
                                                    (
                                                      (((((h, _), same), at), ready), reconciled),
                                                      of_state,
                                                    ),
                                                    named,
                                                  ),
                                                  agreed,
                                                ),
                                                taken,
                                              ).
                                            take_snapshot-IsCertified s cursor r identity taken_at t
                                              (subst (IsReconciled Shows c store) (sym same) h.0) at
                                              ready reconciled of_state named agreed taken)
                                          (λ certified.
                                            Triple-weaken I (λ w h. h.0.0.0.0.0.0.0.0.0)
                                              (Triple-with_store_writer J store g
                                                (IsReconciled Shows c store)
                                                (IsReconciled Shows c store) (λ _ h. h)
                                                (IsCertified Shows c) lease
                                                (save_owned c store t owner)
                                                (λ l.
                                                  Triple-save_owned t owner l certified)))))))))))))
