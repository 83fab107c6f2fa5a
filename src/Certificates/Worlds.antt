-- ===== src/Certificates/Worlds.antt =====
-- On everything that the indexer and its worker (packages/indexer/src/event-indexer.ts,
-- packages/indexer/src/worker.ts) can do with a store, in any order, restarts included.
use cedra_reflect.Base.{List, [], none, some, ◌∷◌}
use cedra_reflect.Int.{ℤ}
use cedra_reflect.Certificates.Certified.{
  ChainViews, Guards, Holds, IsAnswering, IsCertified, IsReconciled, IsSound,
  Triple-with_exclusive_writer, Triple-with_state_owner,
}
use cedra_reflect.Certificates.Reconciling.{Triple-reconcile_owned}
use cedra_reflect.Certificates.Saving.{Triple-snapshot_owned}
use cedra_reflect.Certificates.Steps.{
  IsIdle, IsIdle-IsReconciled, Triple-poll_once_owned, Triple-process_owned-IsIdle,
  Triple-restore_latest_snapshot_owned,
}
use cedra_reflect.Certificates.Triples.{
  Ended, Triple, Triple-result, Triple-returning, Triple-then, Triple-weaken, Triple-whether,
  left_behind,
}
use cedra_reflect.Indexer.Operation.{
  IndexerState, Operation, World, initial_state, with_state_owner,
}
use cedra_reflect.Indexer.Process.{poll_once, process}
use cedra_reflect.Indexer.Store.{Identity, IndexerStore, ProtocolEventSource, Result, ok, refused}
use cedra_reflect.Indexer.Worker.{CriticalAlertSink, deliver, run_once, run_once_under_lease}
use cedra_reflect.Indexer.Writer.{
  checkpoint, reconcile_views, restore_latest_snapshot, with_exclusive_store_writer,
}
use cedra_reflect.Snapshot.Codec.{Codec}
use cedra_reflect.Types.Common.{CriticalAlert}
use cedra_reflect.Types.Event.{ProtocolEvent}

module _ {S : Type 0} (Shows : ChainViews) (c : Codec) (store : IndexerStore S)
    (sink : CriticalAlertSink S) where
  -- One call of a public method, or a new process on the same store. Who is asked for views answers
  -- with the chain's.
  pub data Step (w : World S) : World S → Type 0 where
    restarted : Step w (record w { indexer = initial_state })
    restored : (owner : Identity) → Step w (restore_latest_snapshot c store owner w).0
    processed :
        (owner : Identity) (events : List ProtocolEvent) → Step w (process store owner events w).0
    polled :
        (owner : Identity) (source : ProtocolEventSource) (limit : ℤ)
        → Step w (poll_once store owner source limit w).0
    reconciled :
        (now : ℤ) (owner : Identity) (source : ProtocolEventSource)
        → IsAnswering Shows source
        → Step w (reconcile_views c store now owner source w).0
    checkpointed :
        (owner : Identity) (taken_at : ℤ) → Step w (checkpoint c store owner taken_at w).0
    worked :
        (source : ProtocolEventSource) (now taken_at limit : ℤ) (owner : Identity)
        → IsAnswering Shows source
        → Step w (run_once c store sink source now taken_at limit owner w).0

  pub data Run (w : World S) : World S → Type 0 where
    begun : Run w w
    continued : (v u : World S) → Run w v → Step v u → Run w u

  module _ (J : S → Type 0) (g : Guards store (IsCertified Shows c) J)
      (delivering : (a : CriticalAlert) (s : S) → J s → J (sink.deliver a s).0) where
    delivered-Ended :
        (s : IndexerState) (r : S × Result Unit)
        → IsReconciled Shows c store s
        → J r.0
        → Ended
            (IsSound Shows c store J)
            (λ _ w. IsSound Shows c store J w)
            (record { indexer = s; store = r.0 }, r.1)
    delivered-Ended s (t, ok a) h j = (h, j)
    delivered-Ended s (t, refused e) h j = (h, j)

    Triple-deliver :
        (alerts : List CriticalAlert)
        → Triple
            (IsSound Shows c store J)
            (IsSound Shows c store J)
            (deliver c store sink alerts)
            (λ _ w. IsSound Shows c store J w)
    unfolding deliver
    Triple-deliver [] = Triple-returning (IsSound Shows c store J) tt (λ w h. h)
    Triple-deliver (a ∷ alerts) =
        Triple-then (IsSound Shows c store J) {Q = λ _ w. IsSound Shows c store J w}
          (record {
            apply = λ w (h, j).
                delivered-Ended w.indexer (sink.deliver a w.store) h (delivering a w.store j);
          })
          (λ _. Triple-deliver alerts)

    idle-IsSound_world : (w : World S) → Holds IsIdle J w → IsSound Shows c store J w
    idle-IsSound_world w (h, j) = (IsIdle-IsReconciled Shows c store w.indexer h, j)

    Triple-run_once_under_lease :
        (source : ProtocolEventSource) (now taken_at limit : ℤ) (owner lease : Identity)
        → IsAnswering Shows source
        → Triple
            (IsSound Shows c store J)
            (IsSound Shows c store J)
            (run_once_under_lease c store sink source now taken_at limit owner lease)
            (λ _ w. IsSound Shows c store J w × Unit)
    unfolding run_once_under_lease
    Triple-run_once_under_lease source now taken_at limit owner lease answering =
        let I = IsSound Shows c store J in
        Triple-then I (Triple-restore_latest_snapshot_owned Shows c store J g owner) (λ _.
          Triple-then I
            (Triple-weaken I idle-IsSound_world
              (Triple-poll_once_owned Shows c store J g source limit owner (some lease)))
            (λ processing.
              Triple-then I (Triple-weaken I idle-IsSound_world (Triple-deliver processing.alerts))
                (λ _.
                  Triple-whether I (λ _. Triple-returning I _ (λ w h. (h, tt)))
                    (λ _.
                      Triple-then I
                        (Triple-reconcile_owned Shows c store J g now source owner (some lease)
                          answering)
                        (λ report. Triple-then I (Triple-deliver report.alerts) (λ _.
                          Triple-whether I (λ _. Triple-returning I _ (λ w h. (h, tt)))
                            (λ _.
                              Triple-then I
                                (Triple-snapshot_owned Shows c store J g taken_at owner
                                  (some lease))
                                (λ taken. Triple-returning I _ (λ w h. (h.0, tt))))))))))

    -- A direct operation, after whatever its own result.
    direct-IsSound :
        {A : Type 0} (Q : A → World S → Type 0) (owner : Identity) (m : Operation S A) (w : World S)
        → ((a : A) (v : World S) → Q a v → IsSound Shows c store J v)
        → Triple (IsSound Shows c store J) (IsSound Shows c store J) m Q
        → IsSound Shows c store J w
        → IsSound Shows c store J (with_state_owner owner m w).0
    direct-IsSound Q owner m w f t h =
        left_behind (IsSound Shows c store J) (λ _ v. IsSound Shows c store J v × Unit)
          (with_state_owner owner m w) (λ a v k. k.0)
          ((Triple-with_state_owner J (IsReconciled Shows c store) (λ _. Unit) (λ _ _ k. k) owner m
              (Triple-result (IsSound Shows c store J) f t)).apply
            w h)

    Step-IsSound :
        (w v : World S) → IsSound Shows c store J w → Step w v → IsSound Shows c store J v
    unfolding restore_latest_snapshot process poll_once reconcile_views checkpoint run_once
        with_exclusive_store_writer
    Step-IsSound w _ h restarted = (tt, h.1)
    Step-IsSound w _ h (restored owner) =
        direct-IsSound (λ _ v. Holds IsIdle J v) owner _ w (λ a v. idle-IsSound_world v)
          (Triple-restore_latest_snapshot_owned Shows c store J g owner) h
    Step-IsSound w _ h (processed owner events) =
        direct-IsSound (λ _ v. Holds IsIdle J v) owner _ w (λ a v. idle-IsSound_world v)
          (Triple-process_owned-IsIdle Shows c store J g events owner none) h
    Step-IsSound w _ h (polled owner source limit) =
        direct-IsSound (λ _ v. Holds IsIdle J v) owner _ w (λ a v. idle-IsSound_world v)
          (Triple-poll_once_owned Shows c store J g source limit owner none) h
    Step-IsSound w _ h (reconciled now owner source answering) =
        direct-IsSound (λ _ v. IsSound Shows c store J v) owner _ w (λ a v k. k)
          (Triple-reconcile_owned Shows c store J g now source owner none answering) h
    Step-IsSound w _ h (checkpointed owner taken_at) =
        direct-IsSound (λ t v. IsSound Shows c store J v × IsCertified Shows c t) owner _ w
          (λ a v k. k.0) (Triple-snapshot_owned Shows c store J g taken_at owner none) h
    Step-IsSound w _ h (worked source now taken_at limit owner answering) =
        left_behind (IsSound Shows c store J) (λ _ v. IsSound Shows c store J v × Unit)
          (run_once c store sink source now taken_at limit owner w) (λ a v k. k.0)
          ((Triple-with_exclusive_writer J store g (IsReconciled Shows c store)
              (IsReconciled Shows c store) (λ _ k. k) (λ _. Unit) _
              (λ lease.
                Triple-with_state_owner J (IsReconciled Shows c store) (λ _. Unit) (λ _ _ k. k)
                  owner _
                  (Triple-run_once_under_lease source now taken_at limit owner lease
                    answering))).apply
            w h)

    pub Run-IsSound :
        (w v : World S) → IsSound Shows c store J w → Run w v → IsSound Shows c store J v
    Run-IsSound w _ h begun = h
    Run-IsSound w u h (continued v _ run step) = Step-IsSound v u (Run-IsSound w v h run) step
