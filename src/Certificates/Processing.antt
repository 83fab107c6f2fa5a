-- ===== src/Certificates/Processing.antt =====
-- On `processOwned` of packages/indexer/src/event-indexer.ts: what holds after it of the state.
use cedra_reflect.Base.{List, Option, none, some, ◌≡◌}
use cedra_reflect.Certificates.Certified.{Guards, Holds, Triple-report_alerts}
use cedra_reflect.Certificates.Triples.{
  Ended, Triple, Triple-assert, Triple-reading, Triple-returning, Triple-then, Triple-weaken,
  Triple-writing,
}
use cedra_reflect.Indexer.Cursor.{
  EventGroup, event_cursor, group_events, last_of, skip_passed, sort_by_cursor,
}
use cedra_reflect.Indexer.Operation.{
  IndexerState, World, invalidate_reconciliation, lifting, set_projection,
}
use cedra_reflect.Indexer.Process.{
  Progress, advanced, process_group, process_groups, process_owned, running,
}
use cedra_reflect.Indexer.Store.{Identity, IndexerStore}
use cedra_reflect.Pages.Groups.{process_groups-keeps}
use cedra_reflect.Types.Event.{ProtocolEvent}
use cedra_reflect.Types.Observed.{IndexerSnapshot}
use cedra_reflect.Types.State.{ProtocolProjection}

module _ {S : Type 0} (store : IndexerStore S) (J : S → Type 0) {C : IndexerSnapshot → Type 0}
    (g : Guards store C J) (G F : IndexerState → Type 0) (f : (s : IndexerState) → F s → G s) where
  running-Ended :
      (w : World S) (r : Option Progress)
      → Holds F J w
      → Ended (Holds G J) (λ _ v. Holds F J v) (lifting r w)
  running-Ended w none (h, j) = (f w.indexer h, j)
  running-Ended w (some p) h = h

  -- From `G` before the call to `F` after it, where dropping the reconciliation gives `F` and every
  -- accepted group keeps it.
  module _ (dropped : (s : IndexerState) → G s → F (invalidate_reconciliation s))
      (accepted : (s : IndexerState) (x : EventGroup) (p : ProtocolProjection)
        → process_group s x ≡ advanced p
        → F s
        → F (set_projection p (some (event_cursor (last_of x))) s)) where
    Triple-running :
        (groups : List EventGroup)
        → Triple (Holds G J) (Holds F J) (running store groups) (λ _ w. Holds F J w)
    unfolding running
    Triple-running groups = record {
      apply = λ w (h, j).
          let ran = process_groups w.indexer groups in
          running-Ended (record w { indexer = ran.0 }) ran.1
            (process_groups-keeps F accepted w.indexer groups h, j);
    }

    pub Triple-process_owned :
        (events : List ProtocolEvent) (owner : Identity) (lease : Option Identity)
        → Triple
            (Holds G J)
            (Holds G J)
            (process_owned store events owner lease)
            (λ _ w. Holds F J w)
    unfolding process_owned
    Triple-process_owned events owner lease =
        let I = Holds G J in
        Triple-then I (Triple-assert I owner (λ w h. h)) (λ _.
          Triple-then I
            (Triple-writing I (Holds F J) invalidate_reconciliation
              (λ w (h, j). (dropped w.indexer h, j)))
            (λ _. Triple-then I (Triple-reading I) (λ before.
              let page = skip_passed before.cursor (sort_by_cursor events) in
              Triple-then I (Triple-weaken I (λ w h. h.0) (Triple-running (group_events page.1)))
                (λ progress.
                  Triple-then I (Triple-report_alerts J store g G F f progress.alerts owner lease)
                    (λ _.
                      Triple-then I (Triple-reading I)
                        (λ final. Triple-returning I _ (λ w h. h.0)))))))
